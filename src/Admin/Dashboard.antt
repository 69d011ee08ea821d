-- ===== src/Admin/Dashboard.antt =====
-- The overview, the feedback list and the recipient count of internal/admin/admin.go.
use convoy_backend.Base.{not, is_some, length, [], ℕ, Bool, List, none}
use convoy_backend.Exec.{Result, ok, err, Exec, attempt, pure, ◌>>=◌}
use convoy_backend.Schema.{UserRow}
use convoy_backend.Schema.Query.{Session, read}
use convoy_backend.Base.Rows.{where_rows}
use convoy_backend.Base.Int.{pos}
use convoy_backend.Feedback.Store.{Entry}
use convoy_backend.Feedback.Store
use convoy_backend.Push.Store as Push
use convoy_backend.Admin.Broadcasts
use convoy_backend.Admin.Broadcasts.{list, or_zero}

pub data DashboardPage : Type 0 where
  overview : ℕ → ℕ → ℕ → ℕ → ℕ → List Entry → DashboardPage
  feedback_page : List Entry → DashboardPage
  recipients : ℕ → DashboardPage
  http_error : ℕ → DashboardPage

abbrev pub is_deleted : UserRow → Bool
is_deleted u = is_some u.deleted_at

-- the numbers of live and of deleted users
unfoldable pub count_users : Exec Session (ℕ × ℕ)
count_users = read λ db. ok (
  length (where_rows (λ u. not (is_deleted u)) db.users),
  length (where_rows is_deleted db.users),
)

abbrev pub pair_or_zero : Result (ℕ × ℕ) → ℕ × ℕ
pair_or_zero (ok p) = p
pair_or_zero (err e) = (0, 0)

-- the entries, with none for an error that is dropped
abbrev pub entries_or_none : Result (List Entry) → List Entry
entries_or_none (ok es) = es
entries_or_none (err e) = []

-- dashboard; every error is dropped
unfoldable pub dashboard : Exec Session DashboardPage
unfolding count_users
dashboard = do
  feedback ← attempt Store.count
  tokens ← attempt Push.count
  broadcasts ← attempt Broadcasts.count
  recent ← attempt (Store.list (pos 5) none)
  users ← attempt count_users
  let counted = pair_or_zero users
  pure (
      overview (or_zero feedback) (or_zero tokens) (or_zero broadcasts) counted.0 counted.1
        (entries_or_none recent))

abbrev pub feedback_answer : Result (List Entry) → DashboardPage
feedback_answer (ok es) = feedback_page es
feedback_answer (err e) = http_error 500

unfoldable pub feedback_list : Exec Session DashboardPage
feedback_list = do r ← attempt (Store.list (pos 200) none); pure (feedback_answer r)

unfoldable pub recipient_count : Exec Session DashboardPage
recipient_count = do r ← attempt Push.count; pure (recipients (or_zero r))
