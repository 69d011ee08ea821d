-- ===== src/Feedback/Submission.antt =====
-- What Submit (internal/feedback/handlers.go) stores.
use convoy_backend.Base.{
  refl, ◌∷◌, [], ◌∷◌, ◌∷◌, inr, ◌++◌, ◌++◌, inl, ◌==◌, Bool-cases, ◌==◌, false, some, ◌≡◌, ◌≡◌, ℕ,
}
use convoy_backend.Base.Rows.{exists_where}
use convoy_backend.Text.{Text, trim_space, is_empty}
use convoy_backend.Text.Cut.{IsCut, column, column-IsCut, cut_over}
use convoy_backend.Exec.{Result, ok, err}
use convoy_backend.Exec.Leads.{Leads, Leads-given, Leads-guard}
use convoy_backend.Web.{body}
use convoy_backend.Schema.{Db, FeedbackRow}
use convoy_backend.Schema.Query.{OnDb}
use convoy_backend.Schema.Leads.{Leads-write, Reaches}
use convoy_backend.Rooms.Store.Rows.{user_exists, user_of}
use convoy_backend.Feedback.Store.{
  Entry, author_of, new_feedback, insert_message, create_rows, create,
}
use convoy_backend.Feedback.Handlers.{max_message_len, submitted}

-- one more entry of the user, with the trimmed text or its first 2000 bytes
pub record Submitted (user : ℕ) (text : Text) (before : Db) (e : Entry) (after : Db) : Type 0 where
  pub given : is_empty (trim_space text) ≡ false
  pub message : IsCut 2000 (trim_space text) e.message
  pub fresh : exists_where (λ (f : FeedbackRow). f.id == e.id) before.feedback ≡ false
  pub author : (e.user_id ≡ some user) × (e.author_name ≡ author_of (user_of before user))
  pub appended : after ≡ record before {
    feedback = before.feedback ++ new_feedback user e.message e.created_at e.id ∷ [];
  }

module _ (user : ℕ) (text : Text) (before : Db) (given : is_empty (trim_space text) ≡ false) where
  insert_message-Submitted :
      (now id : ℕ) (r : Result Text)
      → column (cut_over 2000 (trim_space text)) ≡ r
      → Reaches (Submitted user text before) (insert_message user now id before r)
  insert_message-Submitted now id (err e) h = tt
  insert_message-Submitted now id (ok m) h =
      elim (Bool-cases (exists_where (λ (f : FeedbackRow). f.id == id) before.feedback)) [
        | inl x ↦ rw x tt
        | inr x ↦ rw x (elim (Bool-cases (user_exists before user)) [
          | inr u ↦ rw u tt
          | inl u ↦ rw u (record {
            given = given;
            message = column-IsCut 2000 (trim_space text) m h;
            fresh = x;
            author = (refl, refl);
            appended = refl;
          })
        ])
      ]

-- Submit, when it succeeds, adds one entry with a new id under the user's current name: the trimmed
-- text, which is not empty, or its first 2000 bytes; nothing else changes. When it fails, nothing
-- changes.
pub submitted-Submitted :
    (user : ℕ) (text : Text) (before : Db)
    → Leads
        (OnDb (λ t. t ≡ before))
        (submitted (some user) (body text))
        (λ e. OnDb (Submitted user text before e))
        (OnDb (λ t. t ≡ before))
unfolding submitted create create_rows
submitted-Submitted user text before = Leads-given user _ (
    Leads-given text _ (
      Leads-guard _ _ _ (λ s h. h)
        λ given.
          Leads-write (create_rows user (cut_over max_message_len (trim_space text))) (λ db e. e)
            λ now id db e. rw e (insert_message-Submitted user text before given now id _ refl)))
