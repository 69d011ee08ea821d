-- ===== src/Admin/Recording.antt =====
-- What is recorded of a broadcast once it is delivered (internal/admin/broadcasts.go).
use convoy_backend.Base.{
  inr, refl, ap, inl, ◌∷◌, ◌==◌, ◌==◌, [], ◌∷◌, ◌∷◌, Bool-cases, ◌++◌, map, length, ◌++◌, ◌≡◌, List,
  ◌+◌, ℕ, In,
}
use convoy_backend.Base.Rows.{exists_where, delete_where, delete_where-kept}
use convoy_backend.Text.{Text, trim_space}
use convoy_backend.Text.Cut.{Cut, IsCut, column, column-IsCut, cut_over}
use convoy_backend.Exec.{Result, ok, err, pure}
use convoy_backend.Exec.Keeps.{Keeps-pure, Keeps}
use convoy_backend.Exec.Leads.{Leads, Leads->>=, Leads-tried, Leads-pure, Leads-attempt, Outcome}
use convoy_backend.Schema.{Db, BroadcastRow, TokenRow}
use convoy_backend.Schema.Query.{Keeps-change, OnDb}
use convoy_backend.Schema.Leads.{Leads-write, Reaches}
use convoy_backend.Push.Expo.{SendResult}
use convoy_backend.Push.Store
use convoy_backend.Push.Store.{any_of, delete_token_rows, has_token}
use convoy_backend.Admin.Broadcasts.{
  BroadcastPage, result_page, new_broadcast, insert_texts, insert_rows, insert, result_or,
  record_sent,
}

abbrev pub tokens_of : Db → List Text
tokens_of db = map (λ (r : TokenRow). r.token) db.push_tokens

-- the tables but for the broadcasts: some registrations with given tokens may be gone
pub record Pruned (before after : Db) : Type 0 where
  pub tokens : (r : TokenRow) → In r after.push_tokens → In r before.push_tokens
  pub rest :
      after ≡ record before { push_tokens = after.push_tokens; broadcasts = after.broadcasts }

-- one more broadcast, with its texts cut and its counts
pub record Recorded (title body : Text) (before : Db) (delivered failed : ℕ) (after : Db)
    : Type 0 where
  pub stored : BroadcastRow
  pub appended : after.broadcasts ≡ before.broadcasts ++ stored ∷ []
  pub titled : IsCut 80 (trim_space title) stored.title
  pub bodied : IsCut 240 (trim_space body) stored.body
  pub recipients : stored.recipients ≡ length (tokens_of before)
  pub counts : (stored.delivered ≡ delivered) × (stored.failed ≡ failed)
  pub total : delivered + failed ≡ stored.recipients

-- what the page says of the broadcasts
abbrev pub Shown : Text → Text → Db → BroadcastPage → Db → Type 0
Shown title body before (result_page recipients delivered failed pruned) after =
    (recipients ≡ length (tokens_of before)) × Recorded title body before delivered failed after
Shown title body before page after = after.broadcasts ≡ before.broadcasts

pub record Sent (title body : Text) (before : Db) (page : BroadcastPage) (after : Db) : Type 0 where
  pub pruned : Pruned before after
  pub shown : Shown title body before page after

pub unpruned : (db : Db) → Pruned db db
unpruned db = record { tokens = λ r i. i; rest = refl }

module _ (title body : Text) (before : Db) where
  abbrev pub cut_title : Cut
  cut_title = cut_over 80 (trim_space title)

  abbrev pub cut_body : Cut
  cut_body = cut_over 240 (trim_space body)

  module _ (res : SendResult)
      (counted : res.delivered + res.failed ≡ length (tokens_of before)) where
    abbrev Stored : Db → Type 0
    Stored after = Pruned before after × Recorded title body before res.delivered res.failed after

    abbrev Kept : Db → Type 0
    Kept after = Pruned before after × (after.broadcasts ≡ before.broadcasts)

    insert_texts-Stored :
        (now id : ℕ) (mid : Db) (t b : Result Text)
        → Kept mid
        → column cut_title ≡ t
        → column cut_body ≡ b
        → Reaches
            (λ _. Stored)
            (insert_texts (length (tokens_of before)) res.delivered res.failed now id mid t b)
    insert_texts-Stored now id mid (err e) b k et eb = tt
    insert_texts-Stored now id mid (ok t) (err e) k et eb = tt
    insert_texts-Stored now id mid (ok t) (ok b) k et eb =
        elim (Bool-cases (exists_where (λ (x : BroadcastRow). x.id == id) mid.broadcasts)) [
          | inl x ↦ rw x tt
          | inr x ↦ rw x (
            record {
              tokens = k.0.tokens;
              rest =
                  ap
                    (λ (d : Db). record d {
                      broadcasts =
                          mid.broadcasts
                          ++ new_broadcast t b (length (tokens_of before)) res.delivered res.failed
                              now id
                            ∷ [];
                    })
                    k.0.rest;
            },
            record {
              stored =
                  new_broadcast t b (length (tokens_of before)) res.delivered res.failed now id;
              appended =
                  ap
                    (λ l.
                      l
                      ++ new_broadcast t b (length (tokens_of before)) res.delivered res.failed now
                          id
                        ∷ [])
                    k.1;
              titled = column-IsCut 80 (trim_space title) t et;
              bodied = column-IsCut 240 (trim_space body) b eb;
              recipients = refl;
              counts = (refl, refl);
              total = counted;
            },
          )
        ]

    insert_rows-Stored :
        (now id : ℕ) (mid : Db)
        → Kept mid
        → Reaches
            (λ _. Stored)
            (insert_rows cut_title cut_body
              (length (tokens_of before))
              res.delivered
              res.failed
              now
              id
              mid)
    unfolding insert_rows
    insert_rows-Stored now id mid k = insert_texts-Stored now id mid _ _ k refl refl

    delete_tokens-Kept : (ts : List Text) → Keeps (OnDb Kept) (Store.delete_tokens ts)
    unfolding Store.delete_tokens delete_token_rows
    delete_tokens-Kept [] = Keeps-pure tt
    delete_tokens-Kept (t ∷ ts) =
        Keeps-change (λ now db. delete_token_rows (t ∷ ts) db)
          λ now db k. (
            record {
              tokens = λ r i.
                  k.0.tokens r ((delete_where-kept (any_of (t ∷ ts)) db.push_tokens r).0 i).0;
              rest =
                  ap
                    (λ (d : Db). record d {
                      push_tokens = delete_where (any_of (t ∷ ts)) db.push_tokens;
                    })
                    k.0.rest;
            },
            k.1,
          )

    result_or-Leads :
        (r : Result BroadcastRow)
        → Leads
            (Outcome (λ b. OnDb Stored) (OnDb Kept) r)
            (pure (result_or (length (tokens_of before)) res r))
            (λ page. OnDb (Sent title body before page))
            (λ s. ⊥)
    result_or-Leads (ok b) =
        Leads-pure _
          (λ s h. record { holds = record { pruned = h.holds.0; shown = (refl, h.holds.1) } })
    result_or-Leads (err e) =
        Leads-pure _ (λ s h. record { holds = record { pruned = h.holds.0; shown = h.holds.1 } })

    pub record_sent-Leads :
        Leads
          (OnDb Kept)
          (record_sent cut_title cut_body (length (tokens_of before)) res)
          (λ page. OnDb (Sent title body before page))
          (λ s. ⊥)
    unfolding record_sent insert
    record_sent-Leads =
        Leads->>= _ _
          (Leads-attempt (Store.delete_tokens res.invalid_tokens)
            (delete_tokens-Kept res.invalid_tokens))
          λ pruned.
            Leads->>= _ _
              (Leads-tried _ (
                Leads-write {Q = λ _. Stored}
                  (insert_rows cut_title cut_body (length (tokens_of before)) res.delivered
                    res.failed)
                  (λ db k. k) (λ now id db k. insert_rows-Stored now id db k)))
              λ r. result_or-Leads r
