-- ===== src/Push/Store.antt =====
-- internal/push/store.go
use convoy_backend.Base.{
  [], ◌++◌, ◌∷◌, ◌++◌, ◌||◌, if◌then◌else◌, length, ◌||◌, not, ◌∷◌, if◌then◌else◌, false, map, ℕ,
  List, Bool,
}
use convoy_backend.Text.{Text, runes, same_text}
use convoy_backend.Httpx.{other, foreign_key_violation}
use convoy_backend.Exec.{Result, ok, err, Exec, pure, refuse, ◌>>◌}
use convoy_backend.Schema.{Db, TokenRow}
use convoy_backend.Schema.Query.{Session, read, write, change}
use convoy_backend.Rooms.Store.Rows.{user_exists}
use convoy_backend.Base.Rows.{exists_where, update_where, delete_where}

abbrev pub known_platform : Text → Bool
known_platform p = same_text p (runes "ios") || same_text p (runes "android")

abbrev pub has_token : Text → TokenRow → Bool
has_token t r = same_text r.token t

abbrev pub new_token : Text → ℕ → Text → ℕ → TokenRow
new_token token user platform now = record {
  token = token;
  user_id = user;
  platform = platform;
  updated_at = now;
}

abbrev pub taken_over : ℕ → Text → ℕ → TokenRow → TokenRow
taken_over user platform now r = record r { user_id = user; platform = platform; updated_at = now }

-- INSERT ... ON CONFLICT (token) DO UPDATE, with the foreign key of user_id
unfoldable pub upsert_token_rows : Text → ℕ → Text → ℕ → Db → Result (Unit {0} × Db)
upsert_token_rows token user platform now db =
    if user_exists db user
    then ok (
      tt,
      record db {
        push_tokens =
            if exists_where (has_token token) db.push_tokens
            then update_where (has_token token) (taken_over user platform now) db.push_tokens
            else db.push_tokens ++ new_token token user platform now ∷ [];
      },
    )
    else err foreign_key_violation

unfoldable pub upsert : ℕ → Text → Text → Exec Session (Unit {0})
upsert user token platform = do
  refuse (not (known_platform platform)) (other "invalid platform")
  write (λ now _ db. upsert_token_rows token user platform now db)

unfoldable pub all_tokens : Exec Session (List Text)
all_tokens = read λ db. ok (map (λ (r : TokenRow). r.token) db.push_tokens)

unfoldable pub count : Exec Session ℕ
count = read λ db. ok (length db.push_tokens)

-- token = ANY($1)
abbrev pub any_of : List Text → TokenRow → Bool
any_of [] r = false
any_of (t ∷ ts) r = has_token t r || any_of ts r

unfoldable pub delete_token_rows : List Text → Db → Db
delete_token_rows tokens db = record db {
  push_tokens = delete_where (any_of tokens) db.push_tokens;
}

unfoldable pub delete_tokens : List Text → Exec Session (Unit {0})
delete_tokens [] = pure tt
delete_tokens (t ∷ ts) = change λ now db. delete_token_rows (t ∷ ts) db
