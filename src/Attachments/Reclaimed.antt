-- ===== src/Attachments/Reclaimed.antt =====
-- What a cleanup achieves that nothing disturbs.
use opsdesk.Base.{
  length, find_many, count, delete_many, any, All, All-delete_many, All-map, count_none, All-both,
  delete_many-All, any_counted, covers_itself, length-find_many, ok, ℕ, ◌+◌, ◌≤◌, ◌<◌, ◌≡◌, refl,
  ◌∙◌, true, false, none, List, [], ◌∷◌, arith,
}
use opsdesk.Schema.{Attachment}
use opsdesk.State.{State}
use opsdesk.Attachments.Cleanup.{
  CleanupResult, clean_each, clean_one, counted, is_abandoned, is_unlinked, without_object,
  without_row, candidates, cleanup_abandoned_uploads, cleanup_attachments, oldest_first, started,
}
use opsdesk.Listing.Order.{count-order_by, length-order_by, order_by}
use opsdesk.Listing.Pages.{take_all}

-- the deletions of the loop, on the rows
abbrev delete_rows : List Attachment → List Attachment → List Attachment
delete_rows [] xs = xs
delete_rows (c ∷ cs) xs = delete_rows cs (delete_many (is_unlinked c.id) xs)

abbrev all_done : CleanupResult → List Attachment → CleanupResult
all_done r [] = r
all_done r (c ∷ cs) = all_done (counted true r) cs

clean_each-rows :
    (r : CleanupResult) (cs : List Attachment) (w : State)
    → ((clean_each (λ id v. v) (λ key. true) r cs w).1.attachments ≡ delete_rows cs w.attachments)
      × ((clean_each (λ id v. v) (λ key. true) r cs w).0 ≡ ok (all_done r cs))
unfolding clean_each clean_one
clean_each-rows r [] w = (refl, refl)
clean_each-rows r (c ∷ cs) w =
    clean_each-rows (counted true r) cs (without_row c.id (without_object c.object_key w))

all_done-result :
    (r : CleanupResult) (cs : List Attachment)
    → all_done r cs ≡ record r { deleted = r.deleted + length cs }
all_done-result r [] = ground arith
all_done-result r (c ∷ cs) = all_done-result (counted true r) cs ∙ ground arith

module _ (now : ℕ) where
  -- each abandoned row is one that the loop deletes
  abbrev Covered : List Attachment → Attachment → Type 0
  Covered cs x = is_abandoned now x ≡ true → any (λ c. is_unlinked c.id x) cs ≡ true

  delete_rows-none :
      (cs xs : List Attachment)
      → All (Covered cs) xs
      → count (is_abandoned now) (delete_rows cs xs) ≡ 0
  delete_rows-none [] xs a =
      count_none (is_abandoned now) xs
        (All-map (Covered []) (λ x. is_abandoned now x ≡ false) xs (λ x h. ground (arith, h)) a)
  delete_rows-none (c ∷ cs) xs a = delete_rows-none cs (delete_many (is_unlinked c.id) xs) (
      All-both (Covered (c ∷ cs)) (λ x. is_unlinked c.id x ≡ false) (Covered cs) _
        (λ x h gone b. ground (arith, h b, gone))
        (All-delete_many (Covered (c ∷ cs)) (is_unlinked c.id) xs a)
        (delete_many-All (is_unlinked c.id) xs))

  -- at most a hundred abandoned rows are all candidates
  candidates-Covered :
      (w : State)
      → All (λ x. is_abandoned now x ≡ true → x.message_id ≡ none) w.attachments
      → count (is_abandoned now) w.attachments ≤ 100
      → All (Covered (candidates now w)) w.attachments
  candidates-Covered w free few =
      let xs = w.attachments in
      let found = find_many (is_abandoned now) xs in
      let whole : candidates now w ≡ order_by oldest_first found =
        take_all 100 (order_by oldest_first found) (
          ground (
            arith,
            length-order_by oldest_first found,
            length-find_many (is_abandoned now) xs,
            few,
          )) in
      rw whole (
        All-map (λ x. is_abandoned now x ≡ true → 0 < count (λ c. is_unlinked c.id x) found)
          (Covered (order_by oldest_first found)) xs
          (λ x h b.
            (any_counted (λ c. is_unlinked c.id x) (order_by oldest_first found)).1
              (rw (count-order_by oldest_first (λ c. is_unlinked c.id x) found) (h b)))
          (covers_itself (is_abandoned now) (λ c x. is_unlinked c.id x) xs
            (All-map _ _ xs (λ x h b. ground (arith, h b)) free)))

-- A run of the cleanup job that nothing disturbs succeeds and leaves no abandoned upload, where
-- there are at most a hundred, none of them has a message, and the object store deletes its
-- objects; it reports as many deletions as it scanned rows.
pub cleanup_reclaims :
    (now : ℕ) (w : State)
    → All (λ x. is_abandoned now x ≡ true → x.message_id ≡ none) w.attachments
    → count (is_abandoned now) w.attachments ≤ 100
    → (r : CleanupResult) × ((cleanup_attachments (λ id v. v) (λ key. true) now w).0 ≡ ok r)
      × (r.deleted ≡ r.scanned)
      × (count
            (is_abandoned now)
            (cleanup_attachments (λ id v. v) (λ key. true) now w).1.attachments
          ≡ 0)
unfolding cleanup_attachments cleanup_abandoned_uploads
cleanup_reclaims now w free few =
    let cs = candidates now w in
    let r = record (started cs) { deleted = 0 + length cs } in
    let rows = clean_each-rows (started cs) cs w in
    let total : all_done (started cs) cs ≡ r = all_done-result (started cs) cs in
    (
      r,
      rw (rows.1, total) refl,
      omega arith,
      rw (rows.1, total)
          (rw rows.0 (delete_rows-none now cs w.attachments (candidates-Covered now w free few))),
    )
