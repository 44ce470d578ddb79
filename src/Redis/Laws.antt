-- ===== src/Redis/Laws.antt =====
-- What the parser of src/tredisdriver.cpp makes of well-formed and of cut replies.
use tf.Base.{
  ℕ, zero, suc, ◌+◌, ◌^◌, ◌≤◌, ◌<◌, ◌≡◌, ◌≢◌, refl, sym, ap, ◌∙◌, true, false, List, [], ◌∷◌, ◌++◌,
  some, length, take, drop, drop-drop, get_or, leb, if◌then◌else◌, All, arith, append_assoc,
  append-nil, length-append, length-drop, take-length-append, drop-length-append,
}
use tf.Base.Text.{Text}
use tf.Base.Int.{pos}
use tf.Redis.{
  Decimal, IsDecimal, Driver, Reply, Replies, bulk, nil, cons, add, count, cr, lf, index_of_crlf,
  unread, advance, get_number, number_of, parse_bulk_string, bulk_of, elements, parsed, go_on,
  to_bulk, to_bulks,
}

index_of_crlf-line :
    (s t : Text) → All (λ c. c ≢ cr) s → index_of_crlf (s ++ (cr ∷ lf ∷ t)) ≡ some (length s)
unfolding index_of_crlf
index_of_crlf-line [] t h = refl
index_of_crlf-line (c ∷ []) t h = ground (arith, h.0)
index_of_crlf-line (c ∷ d ∷ s) t (h, hs) = rw (index_of_crlf-line (d ∷ s) t hs) (ground arith)

unread-advance :
    (d : Driver) (s t : Text) (n : ℕ) → unread d ≡ s ++ t → n ≡ length s → unread (advance d n) ≡ t
unread-advance d s t n e l =
    sym (drop-drop d.pos n (d.pos + n) d.buffer refl)
    ∙ ap (λ bs. drop n bs) e
    ∙ drop-length-append s t n l

pub get_or-drop : (n : ℕ) (xs : Text) (x : ℕ) → get_or (drop n xs) 0 x ≡ get_or xs n x
get_or-drop zero [] x = refl
get_or-drop zero (y ∷ ys) x = refl
get_or-drop (suc n) [] x = refl
get_or-drop (suc n) (y ∷ ys) x = get_or-drop n ys x

-- The replies that texts become.
abbrev pub add_texts : Replies → List Text → Replies
add_texts lst [] = lst
add_texts lst (s ∷ ds) = add_texts (add lst (bulk (some s))) ds

count-add : (lst : Replies) (r : Reply) → count (add lst r) ≡ suc (count lst)
count-add nil r = refl
count-add (cons x xs) r = ap suc (count-add xs r)

not_full :
    (n : ℕ) (lst : Replies) (s : Text) (more : ℕ)
    → n ≡ count lst + suc (suc more)
    → leb n (count (add lst (bulk (some s)))) ≡ false
not_full n lst s more e = ground (arith, count-add lst (bulk (some s)))

pub parsed_at :
    (lst : Replies) (buffer : Text) (m n : ℕ)
    → m ≡ n
    → some (parsed lst (record { buffer = buffer; pos = m }))
      ≡ some (parsed lst (record { buffer = buffer; pos = n }))
parsed_at lst buffer m n e = rw e

module _ (dec : Decimal) (laws : IsDecimal dec) where
  open dec use {number, to_int}

  number_of-line :
      (d : Driver) (n : ℕ) (t : Text)
      → n < 2 ^ 31
      → unread d ≡ number n ++ (cr ∷ lf ∷ t)
      → number_of dec d (some (length (number n)))
        ≡ (some (pos n), advance d (length (number n) + 2))
  unfolding number_of
  number_of-line d n t small e = rw (
    e,
    take-length-append (number n) (cr ∷ lf ∷ t) (length (number n)) refl,
    laws.to_int-number n small,
  )

  get_number-number :
      (d : Driver) (n : ℕ) (t : Text)
      → n < 2 ^ 31
      → unread d ≡ number n ++ (cr ∷ lf ∷ t)
      → get_number dec d ≡ (some (pos n), advance d (length (number n) + 2))
  unfolding get_number
  get_number-number d n t small e =
      ap (number_of dec d) (ap index_of_crlf e ∙ index_of_crlf-line (number n) t (laws.no_cr n))
      ∙ number_of-line d n t small e

  -- A marked count: the byte of the kind, the number, a line end.
  pub get_number-marked :
      (d : Driver) (mark n : ℕ) (t : Text)
      → n < 2 ^ 31
      → unread d ≡ mark ∷ (number n ++ (cr ∷ lf ∷ t))
      → get_number dec (advance d 1) ≡ (some (pos n), advance d (length (number n) + 3))
  get_number-marked d mark n t small e =
      get_number-number (advance d 1) n t small (unread-advance d (mark ∷ []) _ 1 e refl)
      ∙ ap (λ (k : ℕ). (some (pos n), record d { pos = k })) (omega arith)

  pub unread-marked :
      (d : Driver) (mark n : ℕ) (t : Text)
      → unread d ≡ mark ∷ (number n ++ (cr ∷ lf ∷ t))
      → unread (advance d (length (number n) + 3)) ≡ t
  unread-marked d mark n t e =
      unread-advance d (mark ∷ (number n ++ (cr ∷ lf ∷ []))) t (length (number n) + 3)
        (e ∙ ap (λ bs. mark ∷ bs) (sym (append_assoc (number n) (cr ∷ lf ∷ []) t)))
        (omega (arith, length-append (number n) (cr ∷ lf ∷ [])))

  -- Two bytes behind the number are enough.
  bulk_of-two_bytes :
      (start d : Driver) (n : ℕ)
      → 2 ≤ length (unread d)
      → bulk_of dec start (some (pos n), d) ≡ (some (some (take n (unread d))), advance d (n + 2))
  unfolding bulk_of
  bulk_of-two_bytes start d n two =
      let room : leb (d.pos + 2) (length d.buffer) ≡ true =
        ground (arith, length-drop d.pos d.buffer) in
      rw room

  -- A text whose length has been announced is taken as soon as two bytes of it have arrived: where
  -- the reply is cut there or later, the parser does not wait for the rest, and its result is the
  -- part that is there.
  pub parse_bulk_string-cut :
      (d : Driver) (n : ℕ) (part : Text)
      → n < 2 ^ 31
      → 2 ≤ length part
      → unread d ≡ b'$' ∷ (number n ++ (cr ∷ lf ∷ part))
      → parse_bulk_string dec d ≡ (some (some (take n part)), advance d (length (number n) + n + 5))
  unfolding parse_bulk_string
  parse_bulk_string-cut d n part small two e =
      let here = unread-marked d b'$' n part e in
      ap (bulk_of dec d) (get_number-marked d b'$' n part small e)
      ∙ bulk_of-two_bytes d (advance d (length (number n) + 3)) n (rw here two)
      ∙ ap (λ bs. (some (some (take n bs)), advance (advance d (length (number n) + 3)) (n + 2)))
          here
      ∙ ap (λ (k : ℕ). (some (some (take n part)), record d { pos = k })) (omega arith)

  to_bulk-append :
      (s t : Text)
      → to_bulk dec s ++ t ≡ b'$' ∷ (number (length s) ++ (cr ∷ lf ∷ (s ++ (cr ∷ lf ∷ t))))
  unfolding to_bulk
  to_bulk-append s t =
      ap (λ bs. b'$' ∷ bs) (append_assoc (number (length s)) (cr ∷ lf ∷ (s ++ (cr ∷ lf ∷ []))) t)
      ∙ ap (λ bs. b'$' ∷ (number (length s) ++ (cr ∷ lf ∷ bs))) (append_assoc s (cr ∷ lf ∷ []) t)

  pub length-to_bulk :
      (s : Text) → length (to_bulk dec s) ≡ length (number (length s)) + length s + 5
  unfolding to_bulk
  length-to_bulk s = omega (
    arith,
    length-append (number (length s)) (cr ∷ lf ∷ (s ++ (cr ∷ lf ∷ []))),
    length-append s (cr ∷ lf ∷ []),
  )

  parse_bulk_string-to_bulk :
      (d : Driver) (s t : Text)
      → length s < 2 ^ 31
      → unread d ≡ to_bulk dec s ++ t
      → parse_bulk_string dec d ≡ (some (some s), advance d (length (to_bulk dec s)))
  parse_bulk_string-to_bulk d s t small e =
      parse_bulk_string-cut d (length s) (s ++ (cr ∷ lf ∷ t)) small
        (omega (arith, length-append s (cr ∷ lf ∷ t))) (e ∙ to_bulk-append s t)
      ∙ ap (λ bs. (some (some bs), advance d (length (number (length s)) + length s + 5)))
          (take-length-append s (cr ∷ lf ∷ t) (length s) refl)
      ∙ ap (λ k. (some (some s), advance d k)) (sym (length-to_bulk s))

  marked_bulk :
      (d : Driver) (s : Text) (ds : List Text) (t : Text)
      → unread d ≡ to_bulks dec (s ∷ ds) ++ t
      → unread d ≡ to_bulk dec s ++ (to_bulks dec ds ++ t)
  unfolding to_bulks
  marked_bulk d s ds t e = e ∙ append_assoc (to_bulk dec s) (to_bulks dec ds) t

  head-to_bulk :
      (d : Driver) (s t : Text) → unread d ≡ to_bulk dec s ++ t → get_or d.buffer d.pos 0 ≡ b'$'
  unfolding to_bulk
  head-to_bulk d s t e = sym (get_or-drop d.pos d.buffer 0) ∙ ap (λ (bs : Text). get_or bs 0 0) e

  -- A text in front is one round of the loop.
  elements-bulk :
      (fuel n : ℕ) (lst : Replies) (d : Driver) (s t : Text)
      → length s < 2 ^ 31
      → unread d ≡ to_bulk dec s ++ t
      → elements dec (suc fuel) (pos n) lst d ≡ (
          let lst' = add lst (bulk (some s)) in
          let d' = advance d (length (to_bulk dec s)) in
          if leb n (count lst') then some (parsed lst' d') else elements dec fuel (pos n) lst' d')
  unfolding elements go_on
  elements-bulk fuel n lst d s t small e =
      rw (head-to_bulk d s t e, parse_bulk_string-to_bulk d s t small e)

  pub elements-to_bulks :
      (fuel n : ℕ) (lst : Replies) (d : Driver) (s : Text) (ds : List Text) (t : Text)
      → All (λ x. length x < 2 ^ 31) (s ∷ ds)
      → n ≡ count lst + length (s ∷ ds)
      → length ds < fuel
      → unread d ≡ to_bulks dec (s ∷ ds) ++ t
      → elements dec fuel (pos n) lst d
        ≡ some (parsed (add_texts lst (s ∷ ds)) (advance d (length (to_bulks dec (s ∷ ds)))))
  unfolding to_bulks
  elements-to_bulks zero n lst d s ds t small e lt at = absurd (omega arith)
  elements-to_bulks (suc fuel) n lst d s [] t small e lt at =
      elements-bulk fuel n lst d s t small.0 (marked_bulk d s [] t at)
      ∙ rw (count-add lst (bulk (some s)), append-nil (to_bulk dec s)) (ground arith)
  elements-to_bulks (suc fuel) n lst d s (r ∷ ds) t small e lt at =
      let there = advance d (length (to_bulk dec s)) in
      let at' = marked_bulk d s (r ∷ ds) t at in
      let rest =
        elements-to_bulks fuel n (add lst (bulk (some s))) there r ds t small.1
          (omega (arith, count-add lst (bulk (some s)))) (omega arith)
          (unread-advance d (to_bulk dec s) (to_bulks dec (r ∷ ds) ++ t) (length (to_bulk dec s))
            at' refl) in
      elements-bulk fuel n lst d s (to_bulks dec (r ∷ ds) ++ t) small.0 at'
      ∙ rw (not_full n lst s (length ds) (omega arith)) (
          rest
          ∙ parsed_at (add_texts lst (s ∷ r ∷ ds)) d.buffer
              (there.pos + length (to_bulks dec (r ∷ ds)))
              (d.pos + length (to_bulk dec s ++ to_bulks dec (r ∷ ds)))
              (omega (arith, length-append (to_bulk dec s) (to_bulks dec (r ∷ ds)))))
