-- ===== src/Attachments/Kept.antt =====
-- The cleanup and the attachments that messages have.
use opsdesk.Base.{
  ltb, ◌==◌, find_first, find_first-delete_many, is_none, by_pure, by_gets, by_if, by_reject,
  by_bind, by_then, by_modify, Keeps, Keeps-Preorder, Preorder, Progress, ℕ, ◌≡◌, Bool, true, false,
  some, List, [], ◌∷◌, arith, nat_eq,
}
use opsdesk.Schema.{Attachment, ObjectKey}
use opsdesk.State.{State}
use opsdesk.Attachments.Cleanup.{
  CleanupResult, candidates, clean_each, clean_one, cleanup_abandoned_uploads, cleanup_attachments,
  counted, is_unlinked, without_object, without_row, incomplete, started,
}

-- the row is there, and is what it was
abbrev pub HasRow : Attachment → State → Type 0
HasRow a w = find_first (λ x. x.id == a.id) w.attachments ≡ some a

module _ (a : Attachment) (linked : is_none a.message_id ≡ false) where
  order : Preorder (Keeps (HasRow a))
  order = Keeps-Preorder (HasRow a)

  clean_one-Keeps :
      (deletes : ObjectKey → Bool) (b : Attachment)
      → Progress (Keeps (HasRow a)) (clean_one deletes b)
  unfolding clean_one
  clean_one-Keeps deletes b =
      by_if order (deletes b.object_key) _ _
        (by_then order _ _ (by_modify (without_object b.object_key) (λ w h. h)) (
          by_then order _ _
            (by_modify (without_row b.id) (λ w h.
              find_first-delete_many (λ x. x.id == a.id) (is_unlinked b.id) w.attachments
                (ground (arith, linked)) h))
            (by_pure order true)))
        (by_pure order false)

  clean_each-Keeps :
      (others : ℕ → State → State) (deletes : ObjectKey → Bool) (r : CleanupResult)
      (rows : List Attachment)
      → ((id : ℕ) (w : State) → HasRow a w → HasRow a (others id w))
      → Progress (Keeps (HasRow a)) (clean_each others deletes r rows)
  unfolding clean_each
  clean_each-Keeps others deletes r [] keep = by_pure order r
  clean_each-Keeps others deletes r (b ∷ rest) keep =
      by_then order _ _ (by_modify (others b.id) (keep b.id)) (
        by_bind order _ _ (clean_one-Keeps deletes b)
          (λ done. clean_each-Keeps others deletes (counted done r) rest keep))

-- The cleanup keeps the row of every attachment that a message has at its start, whatever other
-- requests do meanwhile, if they keep that row, and whatever the object store answers.
pub cleanup_keeps_linked :
    (others : ℕ → State → State) (deletes : ObjectKey → Bool) (now : ℕ) (a : Attachment) (w : State)
    → is_none a.message_id ≡ false
    → ((id : ℕ) (v : State) → HasRow a v → HasRow a (others id v))
    → HasRow a w
    → HasRow a (cleanup_attachments others deletes now w).1
unfolding cleanup_attachments cleanup_abandoned_uploads
cleanup_keeps_linked others deletes now a w linked keep h =
    let o = order a linked in
    let p : Progress (Keeps (HasRow a)) (cleanup_attachments others deletes now) =
      by_bind o _ _
        (by_bind o _ _ (by_gets o (candidates now))
          (λ found. clean_each-Keeps a linked others deletes (started found) found keep))
        (λ result.
          by_then o _ _ (by_reject o (ltb 0 result.failed) incomplete) (by_pure o result)) in
    p.at w h
