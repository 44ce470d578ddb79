-- ===== src/Redis/Arrays.antt =====
-- parseArray() of src/tredisdriver.cpp on the texts of toMultiBulk(), and on an empty array.
use tf.Base.{
  ℕ, suc, ◌+◌, ◌^◌, ◌≤◌, ◌<◌, ◌≡◌, sym, ap, ◌∙◌, List, [], ◌∷◌, ◌++◌, some, length, get_or, All,
  arith, append_assoc, length-append, length-drop,
}
use tf.Base.Text.{Text}
use tf.Base.Int.{ℤ, pos}
use tf.Redis.{
  Decimal, IsDecimal, Driver, Replies, nil, cr, lf, unread, advance, elements, parse_array, failed,
  parsed, nested, to_bulk, to_bulks, to_multi_bulk,
}
use tf.Redis.Laws.{
  add_texts, elements-to_bulks, get_number-marked, unread-marked, get_or-drop, length-to_bulk,
  parsed_at,
}

module _ (dec : Decimal) (laws : IsDecimal dec) where
  open dec use {number}

  length-to_bulks : (ds : List Text) → length ds ≤ length (to_bulks dec ds)
  unfolding to_bulks
  length-to_bulks [] = omega arith
  length-to_bulks (s ∷ ds) = omega (
    arith,
    length-append (to_bulk dec s) (to_bulks dec ds),
    length-to_bulk dec laws s,
    length-to_bulks ds,
  )

  to_multi_bulk-append :
      (ds : List Text) (t : Text)
      → to_multi_bulk dec ds ++ t
        ≡ b'*' ∷ (number (length ds) ++ (cr ∷ lf ∷ (to_bulks dec ds ++ t)))
  unfolding to_multi_bulk
  to_multi_bulk-append ds t =
      ap (λ bs. b'*' ∷ bs) (append_assoc (number (length ds)) (cr ∷ lf ∷ to_bulks dec ds) t)

  length-to_multi_bulk :
      (ds : List Text)
      → length (to_multi_bulk dec ds) ≡ length (number (length ds)) + 3 + length (to_bulks dec ds)
  unfolding to_multi_bulk
  length-to_multi_bulk ds =
      omega (arith, length-append (number (length ds)) (cr ∷ lf ∷ to_bulks dec ds))

  -- An array of one text or more, written by toMultiBulk(), is read back by parseArray() from
  -- wherever it stands in the buffer, and the position is moved to its end. The number of texts and
  -- their lengths are those that an `int` holds.
  pub parse_array-to_multi_bulk :
      (d : Driver) (s : Text) (ds : List Text) (t : Text)
      → All (λ x. length x < 2 ^ 31) (s ∷ ds)
      → length (s ∷ ds) < 2 ^ 31
      → unread d ≡ to_multi_bulk dec (s ∷ ds) ++ t
      → parse_array dec d
        ≡ some (parsed (add_texts nil (s ∷ ds)) (advance d (length (to_multi_bulk dec (s ∷ ds)))))
  unfolding parse_array nested
  parse_array-to_multi_bulk d s ds t small few e =
      let n = length (s ∷ ds) in
      let e' = e ∙ to_multi_bulk-append (s ∷ ds) t in
      let there = advance d (length (number n) + 3) in
      let at = unread-marked dec laws d b'*' n (to_bulks dec (s ∷ ds) ++ t) e' in
      let enough : length ds < suc (length d.buffer) = omega (
        arith,
        ap (λ (bs : Text). length bs) at,
        length-drop there.pos there.buffer,
        length-append (to_bulks dec (s ∷ ds)) t,
        length-to_bulks (s ∷ ds),
      ) in
      ap (nested dec (λ n' d'. elements dec (suc (length d.buffer)) n' nil d'))
        (get_number-marked dec laws d b'*' n (to_bulks dec (s ∷ ds) ++ t) few e')
      ∙ elements-to_bulks dec laws (suc (length d.buffer)) n nil there s ds t small (omega arith)
          enough at
      ∙ parsed_at (add_texts nil (s ∷ ds)) d.buffer (there.pos + length (to_bulks dec (s ∷ ds)))
          (d.pos + length (to_multi_bulk dec (s ∷ ds)))
          (omega (arith, length-to_multi_bulk (s ∷ ds)))

  nothing_left :
      (fuel : ℕ) (n : ℤ) (lst : Replies) (d : Driver)
      → unread d ≡ []
      → elements dec (suc fuel) n lst d ≡ some failed
  unfolding elements
  nothing_left fuel n lst d e =
      let zero_byte : get_or d.buffer d.pos 0 ≡ 0 =
        sym (get_or-drop d.pos d.buffer 0) ∙ ap (λ (bs : Text). get_or bs 0 0) e in
      rw zero_byte

  -- The loop reads an element before it looks at the count: a whole reply that is an empty array is
  -- refused like one that is cut, so that the parser waits for more.
  pub parse_array-empty :
      (d : Driver) → unread d ≡ to_multi_bulk dec [] → parse_array dec d ≡ some failed
  unfolding parse_array nested to_multi_bulk to_bulks
  parse_array-empty d e =
      ap (nested dec (λ n d'. elements dec (suc (length d.buffer)) n nil d'))
        (get_number-marked dec laws d b'*' 0 [] (omega arith) e)
      ∙ nothing_left (length d.buffer) (pos 0) nil (advance d (length (number 0) + 3))
          (unread-marked dec laws d b'*' 0 [] e)
