-- ===== src/Attachments/Completion.antt =====
-- What it takes to complete an upload.
use opsdesk.Base.{
  if◌then◌else◌, Bool-cases, Option-cases, ◌==◌, ◌!=◌, eq_of_ne_false, find_first, update_many,
  find_first_holds, All-find_first, update_many-All, ok, Text, ℕ, String, ◌≡◌, refl, ap, subst, ◌∙◌,
  ◌⊎◌, inl, inr, Bool, true, false, Option, none, some, List, arith, text_eq, option_eq, nat_eq,
}
use opsdesk.Enums.{AttachmentStatus, attachment_status_eq}
use opsdesk.Schema.{Attachment, ObjectKey}
use opsdesk.State.{State, TenantContext}
use opsdesk.Attachments.Policy.{normalize_content_type}
use opsdesk.Attachments.{
  StoredObject, invalid_upload, is_attachment, is_pending_upload, is_type_mismatch, mark_uploaded,
  with_upload, complete_upload, check_upload, reject_invalid_upload,
}

-- The store has an object with the size, the type and the id that the row promises.
pub record Verified (to_lower : Text → Text) (head : ObjectKey → Option StoredObject)
    (a : Attachment) : Type 0 where
  pub object : StoredObject
  pub stored : head a.object_key ≡ some object
  pub size : object.content_length ≡ some a.size_bytes
  pub content_type : Text
  pub typed : object.content_type ≡ some content_type
  pub same_type :
      normalize_content_type to_lower content_type ≡ normalize_content_type to_lower a.content_type
  pub same_id : object.attachment_id ≡ some a.id

pending_or_uploaded :
    (s : AttachmentStatus) → (s == AttachmentStatus.pending) ≡ false → s ≡ AttachmentStatus.uploaded
pending_or_uploaded AttachmentStatus.pending h = absurd (ground (arith, h))
pending_or_uploaded AttachmentStatus.uploaded h = refl

module _ (org ticket_id id now : ℕ) (etag : Option String) where
  -- after the update no row of the id is pending
  uploaded_then :
      (x : Attachment)
      → is_attachment org ticket_id id
          (if is_pending_upload org ticket_id id x then with_upload now etag x else x)
        ≡ true
      → (if is_pending_upload org ticket_id id x then with_upload now etag x else x).status
        ≡ AttachmentStatus.uploaded
  uploaded_then x = elim (Bool-cases (is_pending_upload org ticket_id id x)) [
    | inl e ↦ rw e (λ h. refl)
    | inr e ↦ rw e (λ h. pending_or_uploaded x.status (ground (arith, e, h)))
  ]

  found_uploaded :
      (xs : List Attachment) {a : Attachment}
      → find_first
          (is_attachment org ticket_id id)
          (update_many (is_pending_upload org ticket_id id) (with_upload now etag) xs)
        ≡ some a
      → (a.status ≡ AttachmentStatus.uploaded) × (is_attachment org ticket_id id a ≡ true)
  found_uploaded xs {a} h =
      let ys = update_many (is_pending_upload org ticket_id id) (with_upload now etag) xs in
      let here : is_attachment org ticket_id id a ≡ true =
        find_first_holds (is_attachment org ticket_id id) ys h in
      (
        All-find_first
            (λ x. is_attachment org ticket_id id x ≡ true → x.status ≡ AttachmentStatus.uploaded)
            (is_attachment org ticket_id id) ys
            (update_many-All
              (λ x. is_attachment org ticket_id id x ≡ true → x.status ≡ AttachmentStatus.uploaded)
              (is_pending_upload org ticket_id id) (with_upload now etag) xs uploaded_then)
            h here,
        here,
      )

mark_uploaded_returns :
    (tenant : TenantContext) (ticket_id id : ℕ) (etag : Option String) (now : ℕ) (w : State)
    {a : Attachment}
    → (mark_uploaded tenant ticket_id id etag now w).0 ≡ ok a
    → (a.status ≡ AttachmentStatus.uploaded)
      × (is_attachment tenant.organization_id ticket_id id a ≡ true)
unfolding mark_uploaded
mark_uploaded_returns tenant ticket_id id etag now w {a} h =
    let org = tenant.organization_id in
    let rows =
      update_many (is_pending_upload org ticket_id id) (with_upload now etag) w.attachments in
    elim (Option-cases (find_first (is_attachment org ticket_id id) rows)) [
      | inl e ↦ absurd (ground (arith, rw e at h))
      | inr (b, e) ↦
          let same : b ≡ a = ground (arith, rw e at h) in
          found_uploaded org ticket_id id now etag w.attachments (e ∙ ap some same)
    ]

module _ (to_lower : Text → Text) (a : Attachment) where
  type_matches :
      (t : Option Text)
      → is_type_mismatch to_lower a.content_type t ≡ false
      → (u : Text) × (t ≡ some u)
        × (normalize_content_type to_lower u ≡ normalize_content_type to_lower a.content_type)
  type_matches none h = absurd (ground (arith, h))
  type_matches (some u) h = (
    u,
    refl,
    (text_eq.beq_iff (normalize_content_type to_lower u)
          (normalize_content_type to_lower a.content_type)).0
        (ground (arith, h)),
  )

  invalid_upload-none :
      (head : ObjectKey → Option StoredObject) (o : StoredObject)
      → head a.object_key ≡ some o
      → invalid_upload to_lower a o ≡ none
      → Verified to_lower head a
  unfolding invalid_upload
  invalid_upload-none head o stored h = elim (Bool-cases (o.content_length != some a.size_bytes)) [
    | inl e ↦ absurd (ground (arith, rw e at h))
    | inr e ↦ elim (Bool-cases (is_type_mismatch to_lower a.content_type o.content_type)) [
      | inl f ↦ absurd (ground (arith, rw f at (rw e at h)))
      | inr f ↦ elim (Bool-cases (o.attachment_id != some a.id)) [
        | inl g ↦ absurd (ground (arith, rw g at (rw f at (rw e at h))))
        | inr g ↦
            let t = type_matches o.content_type f in
            record {
              object = o;
              stored = stored;
              size = eq_of_ne_false o.content_length (some a.size_bytes) e;
              content_type = t.0;
              typed = t.1;
              same_type = t.2;
              same_id = eq_of_ne_false o.attachment_id (some a.id) g;
            }
      ]
    ]
  ]

check_upload_returns :
    (to_lower : Text → Text) (head : ObjectKey → Option StoredObject) (deletes : ObjectKey → Bool)
    (tenant : TenantContext) (ticket_id now : ℕ) (b : Attachment) (w : State) {a : Attachment}
    (o : Option StoredObject)
    → head b.object_key ≡ o
    → (check_upload to_lower deletes tenant ticket_id b o now w).0 ≡ ok a
    → (a.status ≡ AttachmentStatus.uploaded)
      × (is_attachment tenant.organization_id ticket_id b.id a ≡ true)
      × Verified to_lower head b
unfolding check_upload reject_invalid_upload
check_upload_returns to_lower head deletes tenant ticket_id now b w none stored h =
    absurd (ground (arith, h))
check_upload_returns to_lower head deletes tenant ticket_id now b w (some o) stored h =
    elim (Option-cases (invalid_upload to_lower b o)) [
      | inr (message, e) ↦ absurd (ground (arith, rw (check_upload, e) at h))
      | inl e ↦
          let (up, here) =
            mark_uploaded_returns tenant ticket_id b.id o.etag now w (rw (check_upload, e) at h) in
          (up, here, invalid_upload-none to_lower b head o stored e)
    ]

-- A call that returns gives an uploaded attachment of the ticket. It was uploaded before, and
-- nothing changed; or the object store holds its object with the size, the type and the id that
-- were announced when the upload was initiated.
pub complete_upload_outcome :
    (to_lower : Text → Text) (head : ObjectKey → Option StoredObject) (deletes : ObjectKey → Bool)
    (others : State → State) (tenant : TenantContext) (ticket_id id now : ℕ) (w : State)
    {a : Attachment}
    → (complete_upload to_lower head deletes others tenant ticket_id id now w).0 ≡ ok a
    → (a.status ≡ AttachmentStatus.uploaded)
      × (is_attachment tenant.organization_id ticket_id id a ≡ true)
      × ((complete_upload to_lower head deletes others tenant ticket_id id now w ≡ (ok a, w))
          ⊎ ((b : Attachment) × (find_first
                  (is_attachment tenant.organization_id ticket_id id)
                  w.attachments
                ≡ some b)
              × Verified to_lower head b))
unfolding complete_upload
complete_upload_outcome to_lower head deletes others tenant ticket_id id now w {a} h =
    let org = tenant.organization_id in
    elim (Option-cases (find_first (is_attachment org ticket_id id) w.attachments)) [
      | inl e ↦ absurd (ground (arith, rw e at h))
      | inr (b, e) ↦
          let here : is_attachment org ticket_id id b ≡ true =
            find_first_holds (is_attachment org ticket_id id) w.attachments e in
          elim (Bool-cases (b.status == AttachmentStatus.uploaded)) [
            | inl up ↦
                let same : b ≡ a = ground (arith, rw up at (rw e at h)) in
                (
                  rw (← same)
                      ((attachment_status_eq.beq_iff b.status AttachmentStatus.uploaded).0 up),
                  rw (← same) here,
                  inl (rw e (rw up (ap (λ x. (ok x, w)) same))),
                )
            | inr down ↦
                let r =
                  check_upload_returns to_lower head deletes tenant ticket_id now b (others w)
                    (head b.object_key) refl (rw down at (rw e at h)) in
                (
                  r.0,
                  subst (λ i. is_attachment org ticket_id i a ≡ true) (ground (arith, here)) r.1,
                  inr (b, e, r.2),
                )
          ]
    ]
