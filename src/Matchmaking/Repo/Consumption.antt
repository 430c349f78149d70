-- ===== src/Matchmaking/Repo/Consumption.antt =====
-- How often a token is taken: VerifyAndConsume of internal/matchmaking/repo.go.
use car_video_game_backend.Base.{
  ◌≡◌, refl, ap, subst, inl, inr, List, [], ◌∷◌, Option, none, some, Bool, true, false, if-elim,
  Option-cases, Bool-cases, some-injective, ◌++◌, arith,
}
use car_video_game_backend.Framing.{Bytes}
use car_video_game_backend.Race.Model.{Time}
use car_video_game_backend.Matchmaking.Token.{Codecs, TokenError, token_consumed}
use car_video_game_backend.Matchmaking.Repo.{
  Assignment, Key, matches, select_row, set_consumed, update_rows, check_row, consume_row,
  verify_and_consume, create_assignment, mark_consumed,
}

matches-set_consumed : (j k : Key) (a : Assignment) → matches k (set_consumed j a) ≡ matches k a
matches-set_consumed j k a =
    if-elim (λ x. matches k x ≡ matches k a) (matches j a) (λ _. refl) (λ _. refl)

-- An update finds the rows where they were.
select_row-update_rows :
    (rows : List Assignment) (j k : Key) {a : Assignment}
    → select_row rows k ≡ some a
    → select_row (update_rows rows j) k ≡ some (set_consumed j a)
unfolding select_row update_rows
select_row-update_rows [] j k e = absurd (cc (e))
select_row-update_rows (b ∷ rows) j k {a} e = elim (Bool-cases (matches k b)) [
  | inl h ↦
      let first : some b ≡ some a = ground (arith, h, e) in
      rw (matches-set_consumed j k b)
        (rw h (ap (λ x. some (set_consumed j x)) (some-injective _ _ first)))
  | inr h ↦
      rw (matches-set_consumed j k b)
        (rw h (select_row-update_rows rows j k {a = a} (ground (arith, h, e))))
]

-- The row that is found matches.
select_row-matches :
    (rows : List Assignment) (k : Key) {a : Assignment}
    → select_row rows k ≡ some a
    → matches k a ≡ true
unfolding select_row
select_row-matches [] k e = absurd (cc (e))
select_row-matches (b ∷ rows) k {a} e = elim (Bool-cases (matches k b)) [
  | inl y ↦
      let first : some b ≡ some a = ground (arith, y, e) in
      subst (λ x. matches k x ≡ true) (some-injective _ _ first) y
  | inr n ↦ select_row-matches rows k {a = a} (ground (arith, n, e))
]

select_row-append :
    (rows : List Assignment) (b : Assignment) (k : Key) {a : Assignment}
    → select_row rows k ≡ some a
    → select_row (rows ++ b ∷ []) k ≡ some a
unfolding select_row
select_row-append [] b k e = absurd (cc (e))
select_row-append (h ∷ rows) b k {a} e = elim (Bool-cases (matches k h)) [
  | inl y ↦ ground (arith, y, e)
  | inr n ↦ rw n (select_row-append rows b k {a = a} (ground (arith, n, e)))
]

-- The token has a row, and that row is consumed.
abbrev IsSpent : Key → List Assignment → Type 0
IsSpent k rows = (a : Assignment) × (select_row rows k ≡ some a) × (a.consumed ≡ true)

update_rows-IsSpent :
    (rows : List Assignment) (j k : Key) → IsSpent k rows → IsSpent k (update_rows rows j)
update_rows-IsSpent rows j k (a, found, used) = (
  set_consumed j a,
  select_row-update_rows rows j k found,
  if-elim (λ (x : Assignment). x.consumed ≡ true) (matches j a) (λ _. refl) (λ _. used),
)

-- A call on the table from any process.
pub data TableCall : Type 0 where
  creates : (fails : Bool) → Key → (expires_at : Time) → TableCall
  marks : (fails : Bool) → Key → TableCall
  verifies : (select_fails update_fails : Bool) → Key → Time → TableCall

module _ (c : Codecs) (secret : Bytes) where
  -- A check that passes has found a row that is not consumed.
  check_row_found :
      (rows : List Assignment) (k : Key) (now : Time)
      → check_row c secret false rows k now ≡ none
      → (a : Assignment) × (select_row rows k ≡ some a) × (matches k a ≡ true)
  unfolding check_row
  check_row_found rows k now = elim (Option-cases (select_row rows k)) [
    | inl f ↦ rw (f, check_row) (λ e. absurd (cc (e)))
    | inr (a, f) ↦ λ e. (a, f, select_row-matches rows k f)
  ]

  check_row_spent :
      (rows : List Assignment) (k : Key) (later : Time)
      → IsSpent k rows
      → check_row c secret false rows k later ≡ some token_consumed
  unfolding check_row
  check_row_spent rows k later (a, found, used) = rw (found, used, check_row) refl

  -- The table after a call, and after calls.
  unfoldable pub table_call : List Assignment → TableCall → List Assignment
  unfolding create_assignment mark_consumed verify_and_consume
  table_call rows (creates fails k exp) = elim (create_assignment fails rows k exp) [
    | none ↦ rows
    | some after ↦ after
  ]
  table_call rows (marks fails k) = elim (mark_consumed fails rows k) [
    | none ↦ rows
    | some after ↦ after
  ]
  table_call rows (verifies select_fails update_fails k now) =
      (verify_and_consume c secret select_fails update_fails rows k now).0

  unfoldable pub table_calls : List Assignment → List TableCall → List Assignment
  unfolding table_call
  table_calls rows [] = rows
  table_calls rows (call ∷ calls) = table_calls (table_call rows call) calls

  consume_row-IsSpent :
      (fails : Bool) (rows : List Assignment) (j k : Key)
      → IsSpent k rows
      → IsSpent k (consume_row c secret fails rows j).0
  unfolding consume_row
  consume_row-IsSpent true rows j k h = h
  consume_row-IsSpent false rows j k h = update_rows-IsSpent rows j k h

  table_call-IsSpent :
      (rows : List Assignment) (call : TableCall) (k : Key)
      → IsSpent k rows
      → IsSpent k (table_call rows call)
  unfolding table_call create_assignment mark_consumed verify_and_consume
  table_call-IsSpent rows (creates true j exp) k h = h
  table_call-IsSpent rows (creates false j exp) k (a, found, used) =
      (a, select_row-append rows _ k found, used)
  table_call-IsSpent rows (marks true j) k h = h
  table_call-IsSpent rows (marks false j) k h = update_rows-IsSpent rows j k h
  table_call-IsSpent rows (verifies select_fails update_fails j now) k h =
      elim (Option-cases (check_row c secret select_fails rows j now)) [
        | inl e ↦
            rw (e, table_call, verify_and_consume) (consume_row-IsSpent update_fails rows j k h)
        | inr (err, e) ↦ rw (e, table_call, verify_and_consume) h
      ]

  table_calls-IsSpent :
      (rows : List Assignment) (calls : List TableCall) (k : Key)
      → IsSpent k rows
      → IsSpent k (table_calls rows calls)
  unfolding table_calls
  table_calls-IsSpent rows [] k h = h
  table_calls-IsSpent rows (call ∷ calls) k h =
      table_calls-IsSpent (table_call rows call) calls k (table_call-IsSpent rows call k h)

  Consumes : List Assignment → Key → Time → List Assignment × Option TokenError → Type 0
  Consumes rows k now out =
      out.1 ≡ none → (check_row c secret false rows k now ≡ none) × (out.0 ≡ update_rows rows k)

  verify_and_consume-Consumes :
      (rows : List Assignment) (k : Key) (now : Time)
      → Consumes rows k now (verify_and_consume c secret false false rows k now)
  unfolding verify_and_consume consume_row Consumes
  verify_and_consume-Consumes rows k now =
      elim (Option-cases (check_row c secret false rows k now)) [
        | inl e ↦ rw (e, verify_and_consume) (λ _. (refl, refl))
        | inr (err, e) ↦ rw (e, verify_and_consume) (λ h. absurd (cc (h)))
      ]

  -- A token that VerifyAndConsume has accepted, with no statement failing, is answered as consumed by
  -- every later call for it whose SELECT does not fail, and that call leaves the table as it finds it:
  -- whatever calls of CreateAssignment, MarkConsumed and VerifyAndConsume came in between, for this
  -- token or others, one after the other.
  pub accepted_token_consumed :
      (rows rows' : List Assignment) (k : Key) (now : Time) (calls : List TableCall) (later : Time)
      (update_fails : Bool)
      → verify_and_consume c secret false false rows k now ≡ (rows', none)
      → verify_and_consume c secret false update_fails (table_calls rows' calls) k later
        ≡ (table_calls rows' calls, some token_consumed)
  unfolding verify_and_consume Consumes
  accepted_token_consumed rows rows' k now calls later update_fails e =
      let (passed, same) =
        subst (Consumes rows k now) e (verify_and_consume-Consumes rows k now) refl in
      let (a, found, hit) = check_row_found rows k now passed in
      let spent : IsSpent k rows' =
        rw same (set_consumed k a, select_row-update_rows rows k k found, rw hit refl) in
      let again : check_row c secret false (table_calls rows' calls) k later ≡ some token_consumed =
        check_row_spent (table_calls rows' calls) k later
          (table_calls-IsSpent rows' calls k spent) in
      rw (again, verify_and_consume) refl

  -- Two calls whose statements interleave: each has made its SELECT and its checks before the other
  -- makes its UPDATE.
  unfoldable pub verify_and_consume_both :
      List Assignment
      → Key
      → (now now' : Time) → List Assignment × (Option TokenError × Option TokenError)
  verify_and_consume_both rows k now now' = elim (check_row c secret false rows k now) [
    | some err ↦
        let second = verify_and_consume c secret false false rows k now' in
        (second.0, (some err, second.1))
    | none ↦ elim (check_row c secret false rows k now') [
      | some err ↦ let first = consume_row c secret false rows k in (first.0, (first.1, some err))
      | none ↦
          let first = consume_row c secret false rows k in
          let second = consume_row c secret false first.0 k in (second.0, (first.1, second.1))
    ]
  ]

  -- When two calls for one token each make their SELECT before the other makes its UPDATE, no
  -- statement fails, and either of them alone would be accepted, both are: the token is taken
  -- twice.
  pub token_taken_twice :
      (rows : List Assignment) (k : Key) (now now' : Time)
      → (verify_and_consume c secret false false rows k now).1 ≡ none
      → (verify_and_consume c secret false false rows k now').1 ≡ none
      → (verify_and_consume_both rows k now now').1 ≡ (none, none)
  unfolding verify_and_consume_both consume_row Consumes
  token_taken_twice rows k now now' e e' =
      let first = (verify_and_consume-Consumes rows k now e).0 in
      let second = (verify_and_consume-Consumes rows k now' e').0 in
      rw (first, verify_and_consume_both) (rw second refl)
