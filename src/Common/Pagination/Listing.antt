-- ===== src/Common/Pagination/Listing.antt =====
-- A client that follows the cursors of a list endpoint to the end
-- (backend/src/common/pagination/cursor.ts).
use mathlib.Core.List.{append_assoc}
use mathlib.Core.Path.{subst}
use stellar_tipz.Base.{
  ℕ, zero, suc, ◌+◌, ◌<◌, ◌≡◌, refl, ap, sym, ◌∙◌, Bool, true, false, Option, none, some, List, [],
  ◌∷◌, ◌++◌, arith, ltb, length, length-append, take, take_all, filter, when_some, All, Bool-cases,
  inl, inr,
}
use stellar_tipz.Common.Pagination.{
  Text, Crypto, CursorPosition, Row, is_nil, last_of, is_after, encode_cursor, decode_cursor,
  descending_cursor_condition, to_cursor_page, list_page,
}
use stellar_tipz.Common.Pagination.Codec.{IsCrypto, decode-encode, encode_some, eq_text_refl}
use stellar_tipz.Common.Pagination.Order.{Descends, position_of, filter-is_after}

-- All pages from a cursor on, one after the other; none if a page is refused or the fuel runs out.
unfoldable pub list_all {ℓ} :
    {A : Type ℓ} → ℕ → Crypto → Text → ℕ → List (Row A) → Option Text → Option (List (Row A))
unfolding list_page
list_all zero k scope limit rows cursor = none
list_all (suc fuel) k scope limit rows cursor =
    when_some (list_page k scope limit rows cursor) none (λ page.
      when_some page.next_cursor (some page.data_rows) (λ next.
        when_some (list_all fuel k scope limit rows (some next)) none
          (λ rest. some (page.data_rows ++ rest))))

module _ {ℓ} {A : Type ℓ} where
  -- A list that is longer than `limit`, cut after its `limit` first rows, of which `last` is the last.
  record Cut (limit : ℕ) (rest : List (Row A)) : Type ℓ where
    pub init : List (Row A)
    pub last : Row A
    pub tail : List (Row A)
    pub whole : rest ≡ init ++ last ∷ tail
    pub first : take limit (take (suc limit) rest) ≡ init ++ last ∷ []
    pub final : last_of (init ++ last ∷ []) ≡ some last

  last_of-append : (x : Row A) (xs : List (Row A)) → last_of (xs ++ x ∷ []) ≡ some x
  last_of-append x [] = refl
  last_of-append x (y ∷ []) = refl
  last_of-append x (y ∷ z ∷ xs) = last_of-append x (z ∷ xs)

  cut_at : (limit : ℕ) (rest : List (Row A)) → suc limit < length rest → Cut (suc limit) rest
  cut_at limit [] h = absurd (omega arith)
  cut_at limit (x ∷ []) h = absurd (omega arith)
  cut_at zero (x ∷ y ∷ ys) h = record {
    init = [];
    last = x;
    tail = y ∷ ys;
    whole = refl;
    first = refl;
    final = refl;
  }
  cut_at (suc limit) (x ∷ y ∷ ys) h =
      let c = cut_at limit (y ∷ ys) (omega arith) in
      record {
        init = x ∷ c.init;
        last = c.last;
        tail = c.tail;
        whole = ap (λ zs. x ∷ zs) c.whole;
        first = ap (λ zs. x ∷ zs) c.first;
        final = last_of-append c.last (x ∷ c.init);
      }

  cut : (limit : ℕ) (rest : List (Row A)) → 0 < limit → limit < length rest → Cut limit rest
  cut zero rest p h = absurd (omega arith)
  cut (suc limit) rest p h = cut_at limit rest h

  longer_page : (n : ℕ) (xs : List (Row A)) → n < length xs → length (take (suc n) xs) ≡ suc n
  longer_page n [] h = absurd (omega arith)
  longer_page zero (x ∷ xs) h = refl
  longer_page (suc n) (x ∷ xs) h = omega (arith, longer_page n xs (omega arith))

  -- The query of one row more shows that there is one.
  long_page :
      (limit : ℕ) (rest : List (Row A))
      → limit < length rest
      → ltb limit (length (take (limit + 1) rest)) ≡ true
  long_page limit rest h =
      let e : limit + 1 ≡ suc limit = omega arith in rw e (ground (arith, longer_page limit rest h))

  module _ (k : Crypto) (laws : IsCrypto k) (scope : Text) (limit : ℕ) where
    -- The last page, and a page before others.
    page_last :
        (rest : List (Row A))
        → ltb limit (length rest) ≡ false
        → to_cursor_page k (take (limit + 1) rest) limit scope
          ≡ record { data_rows = rest; next_cursor = none }
    unfolding to_cursor_page
    page_last rest h = rw (take_all (limit + 1) rest (ground arith), h) refl

    page_more :
        (rest : List (Row A)) (c : Cut limit rest)
        → limit < length rest
        → to_cursor_page k (take (limit + 1) rest) limit scope ≡ record {
          data_rows = c.init ++ c.last ∷ [];
          next_cursor = some (encode_cursor k (position_of c.last) scope);
        }
    unfolding to_cursor_page
    page_more rest c h =
        let e : limit + 1 ≡ suc limit = omega arith in
        let long = long_page limit rest h in rw (long, e, c.first, c.final) refl

    -- The cursor stands before the rows `rest` of `rows`.
    record Remains (rows : List (Row A)) (cursor : Option Text) (rest : List (Row A)) : Type ℓ where
      pub test : Row A → Bool
      pub condition : descending_cursor_condition k cursor scope ≡ some test
      pub left : filter test rows ≡ rest
      pub before : List (Row A)
      pub whole : rows ≡ before ++ rest

    all_pass : (rows : List (Row A)) → filter (λ r. true) rows ≡ rows
    all_pass [] = refl
    all_pass (r ∷ rows) = ap (λ rs. r ∷ rs) (all_pass rows)

    start-Remains : (rows : List (Row A)) → Remains rows none rows
    unfolding descending_cursor_condition
    start-Remains rows = record {
      test = λ r. true;
      condition = refl;
      left = all_pass rows;
      before = [];
      whole = refl;
    }

    some_condition :
        (t : Text) (p : CursorPosition)
        → is_nil t ≡ false
        → decode_cursor k t scope ≡ some p
        → descending_cursor_condition {A = A} k (some t) scope ≡ some (is_after p)
    unfolding descending_cursor_condition
    some_condition [] p h e = cc
    some_condition (c ∷ cs) p h e = rw e refl

    module _ (scope_some : is_nil scope ≡ false) (positive : 0 < limit) (rows : List (Row A))
        (sorted : Descends rows) (named : All (λ r. is_nil r.id ≡ false) rows) where
      named_at :
          (before : List (Row A)) (r : Row A) (rest : List (Row A))
          → All (λ x. is_nil x.id ≡ false) (before ++ r ∷ rest)
          → is_nil r.id ≡ false
      named_at [] r rest (h, hs) = h
      named_at (x ∷ xs) r rest (h, hs) = named_at xs r rest hs

      next-Remains :
          (cursor : Option Text) (rest : List (Row A)) (c : Cut limit rest)
          → Remains rows cursor rest
          → Remains rows (some (encode_cursor k (position_of c.last) scope)) c.tail
      next-Remains cursor rest c h =
          let before = h.before ++ c.init in
          let whole : rows ≡ before ++ c.last ∷ c.tail =
            h.whole
            ∙ ap (λ xs. h.before ++ xs) c.whole
            ∙ sym (append_assoc h.before c.init (c.last ∷ c.tail)) in
          let name =
            named_at before c.last c.tail
              (subst (λ xs. All (λ x. is_nil x.id ≡ false) xs) whole named) in
          record {
            test = is_after (position_of c.last);
            condition =
                some_condition _ (position_of c.last)
                  (encode_some k laws (position_of c.last) scope)
                  (decode-encode k laws (position_of c.last) scope scope scope_some name
                    ∙ rw (eq_text_refl scope) refl);
            left =
                ap (filter (is_after (position_of c.last))) whole
                ∙ filter-is_after before c.last c.tail (subst Descends whole sorted);
            before = before ++ c.last ∷ [];
            whole = whole ∙ sym (append_assoc before (c.last ∷ []) c.tail);
          }

      list_page_at :
          (cursor : Option Text) (rest : List (Row A))
          → Remains rows cursor rest
          → list_page k scope limit rows cursor
            ≡ some (to_cursor_page k (take (limit + 1) rest) limit scope)
      unfolding list_page
      list_page_at cursor rest at = rw (at.condition, at.left) refl

      -- What the walk does with a last page, and with another.
      all_last :
          (fuel : ℕ) (cursor : Option Text) (rest : List (Row A))
          → list_page k scope limit rows cursor
            ≡ some (record { data_rows = rest; next_cursor = none })
          → list_all (suc fuel) k scope limit rows cursor ≡ some rest
      unfolding list_all
      all_last fuel cursor rest e = rw e refl

      all_more :
          (fuel : ℕ) (cursor : Option Text) (page tail : List (Row A)) (next : Text)
          → list_page k scope limit rows cursor
            ≡ some (record { data_rows = page; next_cursor = some next })
          → list_all fuel k scope limit rows (some next) ≡ some tail
          → list_all (suc fuel) k scope limit rows cursor ≡ some (page ++ tail)
      unfolding list_all
      all_more fuel cursor page tail next e e' = rw (e, e') refl

      shorter :
          (fuel : ℕ) (rest : List (Row A)) (c : Cut limit rest)
          → length rest < suc fuel
          → length c.tail < fuel
      shorter fuel rest c h =
          omega (arith, ap length c.whole, length-append c.init (c.last ∷ c.tail))

      walk :
          (fuel : ℕ) (cursor : Option Text) (rest : List (Row A))
          → length rest < fuel
          → Remains rows cursor rest
          → list_all fuel k scope limit rows cursor ≡ some rest
      walk zero cursor rest h at = absurd (omega arith)
      walk (suc fuel) cursor rest h at = elim (Bool-cases (ltb limit (length rest))) [
        | inl more ↦
            let long : limit < length rest = ground arith in
            let c = cut limit rest positive long in
            all_more fuel cursor (c.init ++ c.last ∷ []) c.tail _
              (list_page_at cursor rest at ∙ ap some (page_more rest c long))
              (walk fuel _ c.tail (shorter fuel rest c h) (next-Remains cursor rest c at))
            ∙ ap some (append_assoc c.init (c.last ∷ []) c.tail ∙ sym c.whole)
        | inr done ↦
            all_last fuel cursor rest (list_page_at cursor rest at ∙ ap some (page_last rest done))
      ]

      -- With base64url, HMAC and JSON as documented, a positive limit and a non-empty scope: a client
      -- that follows the cursors of a list from its start gets every row once, in the order of the
      -- list, if the rows are in strictly descending order of time and id and no id is empty. It needs
      -- at most one page more than there are rows.
      pub list_all_complete : list_all (length rows + 1) k scope limit rows none ≡ some rows
      list_all_complete = walk (length rows + 1) none rows (omega arith) (start-Remains rows)
