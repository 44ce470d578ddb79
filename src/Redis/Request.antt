-- ===== src/Redis/Request.antt =====
-- The loop of request() of src/tredisdriver.cpp, which waits for the reply. What readReply() puts in
-- the buffer, one call after the other, is a list of texts; where the list ends, reading fails.
use tf.Base.{
  ℕ, ◌^◌, ◌≤◌, ◌<◌, ◌≡◌, refl, sym, ap, Bool, true, false, List, [], ◌∷◌, ◌++◌, Option, none, some,
  length, take, get_or, ◌==◌, if◌then◌else◌, All, append-nil,
}
use tf.Base.Text.{Text}
use tf.Base.Int.{ℤ}
use tf.Redis.{
  Decimal, IsDecimal, Driver, Replies, nil, add, integer, bulk, cr, lf, advance, get_line,
  get_number, parse_bulk_string, parse_array, Parsed, failed, parsed, to_multi_bulk,
}
use tf.Redis.Laws.{add_texts, parse_bulk_string-cut}
use tf.Redis.Arrays.{parse_array-to_multi_bulk}

-- What a round of the loop comes to: the answer and the responses, another round, or a reply of no
-- known kind, on which the connection is closed.
pub data Round : Type 0 where
  done : (ret : Bool) → (response : Replies) → Round
  retry : (ret : Bool) → (response : Replies) → Round
  invalid : (response : Replies) → Round

-- The result of request(), and whether the connection is still open.
pub record Result : Type 0 where
  pub ret : Bool
  pub response : Replies
  pub is_open : Bool

unfoldable pub after_line : Bool → Replies → Option Text × Driver → Round
after_line ret response (none, d) = retry ret response
after_line ret response (some line, d) = done ret response

unfoldable pub after_number : Bool → Replies → Option ℤ × Driver → Round
after_number ret response (none, d) = retry ret response
after_number ret response (some num, d) = done ret (add response (integer num))

unfoldable pub after_bulk : Bool → Replies → Option (Option Text) × Driver → Round
after_bulk ret response (none, d) = retry ret response
after_bulk ret response (some str, d) = done ret (add response (bulk str))

unfoldable pub after_array : Bool → Option Parsed → Option Round
after_array ret none = none
after_array ret (some failed) = some (retry ret nil)
after_array ret (some (parsed lst d)) = some (done ret lst)

module _ (dec : Decimal) where
  -- The switch on the first byte of the buffer; none where the parser of arrays runs out of fuel.
  unfoldable pub round : Bool → Replies → Driver → Option Round
  round ret response d =
      let c = get_or d.buffer d.pos 0 in
      if c == b'-'
      then some (after_line false response (get_line d))
      else if c == b'+'
      then some (after_line ret response (get_line d))
      else if c == b':'
      then some (after_number ret response (get_number dec (advance d 1)))
      else if c == b'$'
      then some (after_bulk ret response (parse_bulk_string dec d))
      else if c == b'*'
      then after_array ret (parse_array dec d)
      else some (invalid response)

  unfoldable pub next_round : (Bool → Replies → Option Result) → Option Round → Option Result
  next_round again none = none
  next_round again (some (done ret response)) =
      some (record { ret = ret; response = response; is_open = true })
  next_round again (some (retry ret response)) = again ret response
  next_round again (some (invalid response)) =
      some (record { ret = false; response = response; is_open = false })

  -- The loop, after the command has been written and the buffer cleared.
  unfoldable pub receive : List Text → Bool → Replies → Text → Option Result
  receive [] ret response buffer = some (record { ret = ret; response = response; is_open = false })
  receive (chunk ∷ chunks) ret response buffer =
      next_round (λ ret' response'. receive chunks ret' response' (buffer ++ chunk))
        (round ret response (record { buffer = buffer ++ chunk; pos = 0 }))

  -- request(): nothing is sent on a closed connection, and a failing writeCommand() closes it.
  unfoldable pub request : Bool → Bool → List Text → Replies → Option Result
  request false is_written chunks response =
      some (record { ret = false; response = response; is_open = false })
  request true false chunks response =
      some (record { ret = false; response = response; is_open = false })
  request true true chunks response = receive chunks true response []

  module _ (laws : IsDecimal dec) where
    open dec use {number}

    round-cut :
        (n : ℕ) (part : Text)
        → n < 2 ^ 31
        → 2 ≤ length part
        → round true nil (record { buffer = b'$' ∷ (number n ++ (cr ∷ lf ∷ part)); pos = 0 })
          ≡ some (done true (add nil (bulk (some (take n part)))))
    unfolding round after_bulk
    round-cut n part small two =
        ap (λ r. some (after_bulk true nil r))
          (parse_bulk_string-cut dec laws
            (record { buffer = b'$' ∷ (number n ++ (cr ∷ lf ∷ part)); pos = 0 }) n part small two
            refl)

    -- request() does not wait for the rest of a text: where readReply() delivers the announced
    -- length and two bytes or more of the text at first, the answer is what has arrived of the
    -- text, whatever would follow.
    pub request-cut :
        (n : ℕ) (part : Text) (later : List Text)
        → n < 2 ^ 31
        → 2 ≤ length part
        → request true true ((b'$' ∷ (number n ++ (cr ∷ lf ∷ part))) ∷ later) nil
          ≡ some (record {
            ret = true;
            response = add nil (bulk (some (take n part)));
            is_open = true;
          })
    unfolding request receive next_round
    request-cut n part later small two = rw (round-cut n part small two)

    round-to_multi_bulk :
        (s : Text) (ds : List Text)
        → All (λ x. length x < 2 ^ 31) (s ∷ ds)
        → length (s ∷ ds) < 2 ^ 31
        → round true nil (record { buffer = to_multi_bulk dec (s ∷ ds); pos = 0 })
          ≡ some (done true (add_texts nil (s ∷ ds)))
    unfolding round after_array to_multi_bulk
    round-to_multi_bulk s ds small few = ap (after_array true) (
        parse_array-to_multi_bulk dec laws (record { buffer = to_multi_bulk dec (s ∷ ds); pos = 0 })
          s ds [] small few (sym (append-nil (to_multi_bulk dec (s ∷ ds)))))

    -- A reply that is a whole array of texts, in the form of toMultiBulk(), ends request() with
    -- success, the texts in their order and the connection open.
    pub request-to_multi_bulk :
        (s : Text) (ds later : List Text)
        → All (λ x. length x < 2 ^ 31) (s ∷ ds)
        → length (s ∷ ds) < 2 ^ 31
        → request true true (to_multi_bulk dec (s ∷ ds) ∷ later) nil
          ≡ some (record { ret = true; response = add_texts nil (s ∷ ds); is_open = true })
    unfolding request receive next_round
    request-to_multi_bulk s ds later small few = rw (round-to_multi_bulk s ds small few)
