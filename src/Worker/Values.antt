-- ===== src/Worker/Values.antt =====
-- What `handle_read` of opc-da-client/src/com_worker/read.rs returns: the values of the tags in order,
-- described without indices, and the panic on a short answer.
use opc_cli.Prelude.{
  ℕ, suc, ◌<◌, ◌≡◌, refl, sym, ap, ◌∙◌, true, false, not, ◌||◌, Option, none, some, List, [], ◌∷◌,
  ◌++◌, Text, length, get_elem?, set, is_empty, ◌==◌, if◌then◌else◌, arith, Bool-cases, inl, inr,
  length-append, codes,
}
use mathlib.Core.List.{append_assoc}
use opc_cli.Errors.{ok, format_hresult, unwrap_or}
use opc_cli.Provider.{TagValue}
use opc_cli.Act.{done, return, invoke, ◌>>=◌}
use opc_cli.Values.{Formats}
use opc_cli.Worker.Groups.{
  GroupServer, ItemState, AddedGroup, item_defs, is_success, opc_ds_device, update_rate,
}
use opc_cli.Worker.Read.{
  ReadPresentation, not_read, placeholders, accepted, handles_of, read_value, fill, finish_read,
  read_items, handle_read,
}

abbrev with_value : TagValue → Option (List TagValue) → Option (List TagValue)
with_value v none = none
with_value v (some vs) = some (v ∷ vs)

abbrev after : List TagValue → Option (List TagValue) → Option (List TagValue)
after [] o = o
after (v ∷ vs) o = with_value v (after vs o)

module _ (f : Formats) (presentation : ReadPresentation) where
  abbrev taking :
      Text
      → (List ItemState → List ℕ → Option (List TagValue))
      → List ItemState
      → List ℕ
      → Option (List TagValue)
  taking t rest (s ∷ ss) (r ∷ rs) = with_value (read_value f presentation t s r) (rest ss rs)
  taking t rest _ _ = none

  -- The values that the answers of the server stand for: a tag that was rejected keeps its place, and
  -- each of the others takes the next answer of the read. `none` when the answers run out.
  abbrev pub merged : List Text → List ℕ → List ItemState → List ℕ → Option (List TagValue)
  merged [] errors states read_errors = some []
  merged (t ∷ ts) [] states read_errors = none
  merged (t ∷ ts) (e ∷ es) states read_errors =
      if is_success e
      then taking t (merged ts es) states read_errors
      else with_value (not_read t (format_hresult e)) (merged ts es states read_errors)

  set_middle :
      (front : List TagValue) (old v : TagValue) (rest : List TagValue)
      → set (front ++ old ∷ rest) (length front) v ≡ front ++ v ∷ rest
  set_middle [] old v rest = refl
  set_middle (x ∷ front) old v rest = ap (λ vs. x ∷ vs) (set_middle front old v rest)

  get_middle :
      (ids : List Text) (t : Text) (ts : List Text)
      → get_elem? (ids ++ t ∷ ts) (length ids) ≡ some t
  get_middle [] t ts = refl
  get_middle (x ∷ ids) t ts = get_middle ids t ts

  after-append :
      (front : List TagValue) (v : TagValue) (o : Option (List TagValue))
      → after (front ++ v ∷ []) o ≡ after front (with_value v o)
  after-append [] v o = refl
  after-append (x ∷ front) v o = ap (with_value x) (after-append front v o)

  length-snoc : {A : Type 0} (xs : List A) (x : A) → length (xs ++ x ∷ []) ≡ suc (length xs)
  length-snoc xs x = omega (arith, length-append {0} xs (x ∷ []))

  -- The value that the loop writes for the tag at `n`.
  set-read_value :
      (n : ℕ) (ids : List Text) (t : Text) (ts : List Text) (front : List TagValue) (old : TagValue)
      (rest : List TagValue) (s : ItemState) (r : ℕ)
      → n ≡ length ids
      → n ≡ length front
      → set
          (front ++ old ∷ rest)
          n
          (read_value f presentation (unwrap_or (get_elem? (ids ++ t ∷ ts) n) []) s r)
        ≡ (front ++ read_value f presentation t s r ∷ []) ++ rest
  set-read_value n ids t ts front old rest s r at_ids at_front =
      rw (at_ids, get_middle ids t ts)
        (rw (sym at_ids ∙ at_front) (
          set_middle front old (read_value f presentation t s r) rest
          ∙ sym (append_assoc front (read_value f presentation t s r ∷ []) rest)))

  after-none : (front : List TagValue) → after front none ≡ none
  after-none [] = refl
  after-none (v ∷ front) = ap (with_value v) (after-none front)

  after-some : (front : List TagValue) → after front (some []) ≡ some (front ++ [])
  after-some [] = refl
  after-some (v ∷ front) = ap (with_value v) (after-some front)

  module _ (all_tags : List Text) where
    -- The next tag was added: the loop and the description take the next answer of the read.
    fill-taking :
        (t : Text) (n h : ℕ) (taken : List (ℕ × ℕ)) (front values : List TagValue)
        (others : List ItemState → List ℕ → Option (List TagValue)) (states : List ItemState)
        (read_errors : List ℕ)
        → ((s : ItemState) (r : ℕ) (ss : List ItemState) (rs : List ℕ)
            → fill f presentation all_tags taken ss rs
                (set values n (read_value f presentation (unwrap_or (get_elem? all_tags n) []) s r))
              ≡ after (front ++ read_value f presentation t s r ∷ []) (others ss rs))
        → fill f presentation all_tags ((n, h) ∷ taken) states read_errors values
          ≡ after front (taking t others states read_errors)
    unfolding fill
    fill-taking t n h taken front values others (s ∷ ss) (r ∷ rs) ih =
        ih s r ss rs ∙ after-append front _ _
    fill-taking t n h taken front values others [] rs ih = sym (after-none front)
    fill-taking t n h taken front values others (s ∷ ss) [] ih = sym (after-none front)

    fill-merged :
        (n : ℕ) (ids : List Text) (front : List TagValue) (tags : List Text)
        (results errors : List ℕ) (states : List ItemState) (read_errors : List ℕ)
        (values : List TagValue)
        → n ≡ length ids
        → n ≡ length front
        → all_tags ≡ ids ++ tags
        → values ≡ front ++ placeholders tags errors
        → length results ≡ length tags
        → length errors ≡ length tags
        → fill f presentation all_tags (accepted n results errors) states read_errors values
          ≡ after front (merged tags errors states read_errors)
    unfolding fill accepted placeholders
    fill-merged n ids front [] [] errors states read_errors values a b c d l1 l2 =
        ap some d ∙ sym (after-some front)
    fill-merged n ids front [] (h ∷ hs) errors states read_errors values a b c d l1 l2 = cc
    fill-merged n ids front (t ∷ ts) [] errors states read_errors values a b c d l1 l2 = cc
    fill-merged n ids front (t ∷ ts) (h ∷ hs) [] states read_errors values a b c d l1 l2 = cc
    fill-merged n ids front (t ∷ ts) (h ∷ hs) (e ∷ es) states read_errors values a b c d l1 l2 =
        elim (Bool-cases (is_success e)) [
          | inl good ↦ rw good (
              fill-taking t n h _ front values (merged ts es) states read_errors λ s r ss rs.
                fill-merged (suc n) (ids ++ t ∷ []) (front ++ read_value f presentation t s r ∷ [])
                  ts hs es ss rs _ (omega (arith, length-snoc ids t))
                  (omega (arith, length-snoc front (read_value f presentation t s r)))
                  (c ∙ sym (append_assoc ids (t ∷ []) ts))
                  (rw (c, d) (set-read_value n ids t ts front _ (placeholders ts es) s r a b))
                  (omega arith) (omega arith))
          | inr bad ↦ rw bad (
              fill-merged (suc n) (ids ++ t ∷ []) (front ++ not_read t (format_hresult e) ∷ []) ts
                hs es states read_errors values (omega (arith, length-snoc ids t))
                (omega (arith, length-snoc front (not_read t (format_hresult e))))
                (c ∙ sym (append_assoc ids (t ∷ []) ts))
                (rw (d, bad)
                  (sym
                    (append_assoc front (not_read t (format_hresult e) ∷ []) (placeholders ts es))))
                (omega arith) (omega arith)
              ∙ after-append front (not_read t (format_hresult e))
                  (merged ts es states read_errors))
        ]

    -- With more tags to take than answers, an index is out of bounds.
    fill_short :
        (taken : List (ℕ × ℕ)) (states : List ItemState) (read_errors : List ℕ)
        (values : List TagValue)
        → length states < length taken
        → fill f presentation all_tags taken states read_errors values ≡ none
    unfolding fill
    fill_short [] states read_errors values h = absurd (omega arith)
    fill_short ((n, h) ∷ taken) [] read_errors values lt = refl
    fill_short ((n, h) ∷ taken) (s ∷ ss) [] values lt = refl
    fill_short ((n, h) ∷ taken) (s ∷ ss) (r ∷ rs) values lt = fill_short taken ss rs _ (omega arith)

  module _ {W : Type 0} (server : GroupServer W) (tags : List Text) (a : AddedGroup)
      (results errors : List ℕ) (states : List ItemState) (read_errors : List ℕ) (w w1 w2 w3 : W)
      (was_added : server.add_group (codes "opc-da-client-read") true update_rate w ≡ (ok a, w1))
      (had_items : server.add_items a.group (item_defs 0 tags) w1 ≡ (ok (results, errors), w2))
      (all_results : length results ≡ length tags) (all_errors : length errors ≡ length tags)
      (some_added : is_empty (accepted 0 results errors) ≡ false)
      (was_read : server.read a.group opc_ds_device (handles_of (accepted 0 results errors)) w2
        ≡ (ok (states, read_errors), w3)) where
    handle_read-finish :
        handle_read f server tags presentation w
        ≡ finish_read f server a.server_handle
            (fill f presentation tags
              (accepted 0 results errors)
              states
              read_errors
              (placeholders tags errors))
            w3
    unfolding handle_read read_items ◌>>=◌ invoke
    handle_read-finish =
        let answered : (not (length results == length tags) || not (length errors == length tags))
            ≡ false =
          ground arith in
        rw (was_added, had_items, answered, some_added, was_read)

    -- The server adds the group, answers for each tag whether it was added, adds some of them and answers
    -- the read of those. Then `handle_read` gives what these answers stand for, one value for each
    -- tag in the order of the tags, and removes the group; or, where these answers are too few to
    -- merge, it panics in the state that the read left.
    pub handle_read-merged :
        handle_read f server tags presentation w
        ≡ finish_read f server a.server_handle (merged tags errors states read_errors) w3
    handle_read-merged =
        handle_read-finish
        ∙ ap (λ o. finish_read f server a.server_handle o w3)
            (fill-merged tags 0 [] [] tags results errors states read_errors
              (placeholders tags errors) refl refl refl refl all_results all_errors)

    -- The server adds the group, answers for each tag whether it was added, adds some of them and answers
    -- the read, but for fewer tags than were added. Then an index of `handle_read` is out of bounds:
    -- the thread panics in the state that the read left.
    pub handle_read_short :
        length states < length (accepted 0 results errors)
        → handle_read f server tags presentation w ≡ (done none, w3)
    unfolding finish_read return
    handle_read_short short =
        handle_read-finish
        ∙ ap (λ o. finish_read f server a.server_handle o w3)
            (fill_short tags (accepted 0 results errors) states read_errors
              (placeholders tags errors) short)
