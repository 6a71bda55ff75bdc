-- ===== src/Realtime/Rooms.antt =====
-- The rooms of apps/api/src/realtime/realtime.rooms.ts, the calls of a socket that enter and leave
-- them, and objects that are used as dictionaries by id.
use mathlib.Core.Option.{some-injective}
use opsdesk.Base.{
  nat_beq, if◌then◌else◌, nat_beq_iff, Bool-cases, ◌==◌, Eq, All, All-map, is_none, ℕ, ◌≡◌, refl,
  subst, ◌↔◌, inl, inr, Bool, true, false, ◌&&◌, Option, none, some, List, [], ◌∷◌, arith, nat_eq,
}

-- The names `user:…`, `organization:…` and `ticket:…:…`; an id holds no colon.
pub data Room : Type 0 where
  user_room organization_room : ℕ → Room
  ticket_room : (organization_id ticket_id : ℕ) → Room

abbrev room_beq : Room → Room → Bool
room_beq (user_room a) (user_room b) = nat_beq a b
room_beq (organization_room a) (organization_room b) = nat_beq a b
room_beq (ticket_room a b) (ticket_room c d) = nat_beq a c && nat_beq b d
room_beq _ _ = false

pub room_beq_iff : (a b : Room) → (room_beq a b ≡ true) ↔ (a ≡ b)
room_beq_iff a b = ground arith

instance abbrev pub room_eq : Eq Room
room_eq = record { beq = room_beq; beq_iff = room_beq_iff }

pub data RoomCall : Type 0 where
  join leave : Room → RoomCall

-- What the calls mean, the newest first: a socket is in a room that it joined and did not leave.
unfoldable pub is_in : Room → List RoomCall → Bool
is_in r [] = false
is_in r (join x ∷ calls) = if x == r then true else is_in r calls
is_in r (leave x ∷ calls) = if x == r then false else is_in r calls

module _ {V : Type 0} where
  -- `m[k]`
  unfoldable pub lookup : ℕ → List (ℕ × V) → Option V
  lookup k [] = none
  lookup k ((j, v) ∷ m) = if j == k then some v else lookup k m

  -- `m[k] = v`
  unfoldable pub put : ℕ → V → List (ℕ × V) → List (ℕ × V)
  put k v [] = (k, v) ∷ []
  put k v ((j, w) ∷ m) = if j == k then (k, v) ∷ m else (j, w) ∷ put k v m

  -- `delete m[k]`
  unfoldable pub remove : ℕ → List (ℕ × V) → List (ℕ × V)
  remove k [] = []
  remove k ((j, w) ∷ m) = let rest = remove k m in if j == k then rest else (j, w) ∷ rest

  pub lookup-put :
      (k j : ℕ) (v : V) (m : List (ℕ × V))
      → lookup j (put k v m) ≡ (if k == j then some v else lookup j m)
  unfolding lookup put
  lookup-put k j v [] = refl
  lookup-put k j v ((i, w) ∷ m) = ground (arith, lookup-put k j v m)

  pub lookup-remove :
      (k j : ℕ) (m : List (ℕ × V)) → lookup j (remove k m) ≡ (if k == j then none else lookup j m)
  unfolding lookup remove
  lookup-remove k j [] = ground arith
  lookup-remove k j ((i, w) ∷ m) = ground (arith, lookup-remove k j m)

  pub All-lookup :
      (P : ℕ × V → Type 0) (k : ℕ) (m : List (ℕ × V)) {v : V}
      → All P m
      → lookup k m ≡ some v
      → P (k, v)
  unfolding lookup
  All-lookup P k [] a h = ground arith
  All-lookup P k ((j, w) ∷ m) {v} a h = elim (Bool-cases (j == k)) [
    | inl e ↦
        let key : j ≡ k = (nat_beq_iff j k).0 e in
        subst (λ i. P (i, v)) key (subst (λ u. P (j, u)) (some-injective _ _ (rw e at h)) a.0)
    | inr e ↦ All-lookup P k m a.1 (rw e at h)
  ]

  pub All-put :
      (P : ℕ × V → Type 0) (k : ℕ) (v : V) (m : List (ℕ × V))
      → P (k, v)
      → All P m
      → All P (put k v m)
  unfolding put
  All-put P k v [] p a = (p, tt)
  All-put P k v ((j, w) ∷ m) p a = elim (Bool-cases (j == k)) [
    | inl e ↦ rw e (p, a.1)
    | inr e ↦ rw e (a.0, All-put P k v m p a.1)
  ]

  pub All-remove : (P : ℕ × V → Type 0) (k : ℕ) (m : List (ℕ × V)) → All P m → All P (remove k m)
  unfolding remove
  All-remove P k [] a = tt
  All-remove P k ((j, w) ∷ m) a = elim (Bool-cases (j == k)) [
    | inl e ↦ rw e (All-remove P k m a.1)
    | inr e ↦ rw e (a.0, All-remove P k m a.1)
  ]

  abbrev pub IsPresent : List (ℕ × V) → ℕ × V → Type 0
  IsPresent m e = is_none (lookup e.0 m) ≡ false

  IsPresent-cons :
      (j : ℕ) (w : V) (m : List (ℕ × V)) (e : ℕ × V) → IsPresent m e → IsPresent ((j, w) ∷ m) e
  unfolding lookup
  IsPresent-cons j w m e h = ground arith

  pub All-IsPresent : (m : List (ℕ × V)) → All (IsPresent m) m
  unfolding lookup
  All-IsPresent [] = tt
  All-IsPresent ((j, w) ∷ m) =
      (ground arith, All-map _ _ m (IsPresent-cons j w m) (All-IsPresent m))
