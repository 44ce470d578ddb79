-- ===== src/SendBuffer/Reading.antt =====
-- What the functions of src/tsendbuffer.cpp leave to be sent.
use tf.Base.{
  ℕ, zero, suc, ◌+◌, ◌≤◌, ◌<◌, ◌≡◌, refl, sym, ap, ◌∙◌, true, false, List, [], ◌∷◌, ◌++◌, Option,
  none, some, if◌then◌else◌, ◌==◌, ltb, leb, take, drop, length, arith, Bool-cases, inl, inr,
  leb→le, ltb→lt, ◌≢◌, append_assoc, append-nil, take-append-drop, drop-drop,
}
use tf.Base.Text.{Text, is_empty}
use tf.SendBuffer.{
  Buffer, File, file_at_end, at_end, release, read_file, read_from, get_data, seek_data,
}

-- The bytes of a buffer that are still to be sent; of a file that cannot be read there are none.
abbrev pub file_bytes : Option File → Text
file_bytes none = []
file_bytes (some f) = if f.fails then [] else f.unread

abbrev pub in_memory : Buffer → Text
in_memory b = drop b.start_pos b.array_buffer

abbrev pub pending : Buffer → Text
pending b = in_memory b ++ file_bytes b.body_file

pub drop_all : {A : Type 0} (n : ℕ) (xs : List A) → length xs ≤ n → drop n xs ≡ []
drop_all zero [] h = refl
drop_all zero (x ∷ xs) h = absurd (omega arith)
drop_all (suc n) [] h = refl
drop_all (suc n) (x ∷ xs) h = drop_all n xs (omega arith)

take_prefix : {A : Type 0} (k : ℕ) (xs ys : List A) → k ≤ length xs → take k (xs ++ ys) ≡ take k xs
take_prefix zero xs ys h = refl
take_prefix (suc k) [] ys h = absurd (omega arith)
take_prefix (suc k) (x ∷ xs) ys h = ap (λ l. x ∷ l) (take_prefix k xs ys (omega arith))

-- What getData() has to give: the first bytes in memory, nothing lost, and none only at the end.
pub record Given (before : Buffer) (r : Text × Buffer) : Type 0 where
  pub same : pending r.1 ≡ pending before
  pub rest : Text
  pub prefix : r.0 ++ rest ≡ in_memory r.1
  pub at_last : r.0 ≡ [] → at_end r.1 ≡ true

in_memory-seek_data : (k : ℕ) (b : Buffer) → in_memory (seek_data k b) ≡ drop k (in_memory b)
unfolding seek_data
in_memory-seek_data k b =
    let e = drop-drop b.start_pos k (b.start_pos + k) b.array_buffer refl in
    elim (Bool-cases (leb (length b.array_buffer) (b.start_pos + k))) [
      | inl q ↦ rw (q, e) (sym (drop_all (b.start_pos + k) b.array_buffer (leb→le _ _ q)))
      | inr q ↦ rw (q, e) refl
    ]

body_file-seek_data : (k : ℕ) (b : Buffer) → (seek_data k b).body_file ≡ b.body_file
unfolding seek_data
body_file-seek_data k b = elim (Bool-cases (leb (length b.array_buffer) (b.start_pos + k))) [
  | inl q ↦ rw q refl
  | inr q ↦ rw q refl
]

-- The bytes that have been sent, with those that are left after seekData(), are those before.
pub take-seek_data :
    (k : ℕ) (bytes rest : Text) (b : Buffer)
    → bytes ++ rest ≡ in_memory b
    → k ≤ length bytes
    → take k bytes ++ pending (seek_data k b) ≡ pending b
take-seek_data k bytes rest b e h =
    let first : take k bytes ≡ take k (in_memory b) = rw (← e) (sym (take_prefix k bytes rest h)) in
    rw (in_memory-seek_data k b, body_file-seek_data k b, first)
      (sym (append_assoc (take k (in_memory b)) (drop k (in_memory b)) (file_bytes b.body_file))
        ∙ ap (λ l. l ++ file_bytes b.body_file) (take-append-drop k (in_memory b)))

at_end_of :
    (b : Buffer)
    → length b.array_buffer ≤ b.start_pos
    → file_at_end b.body_file ≡ true
    → at_end b ≡ true
unfolding at_end
at_end_of b h e =
    let l : leb (length b.array_buffer) b.start_pos ≡ true = ground arith in rw (l, e) refl

-- The first bytes of a text are some bytes.
take_some : (size : ℕ) (t : Text) → 0 < size → is_empty t ≡ false → take size t ≢ []
take_some zero t p e z = absurd (omega arith)
take_some (suc size) [] p e z = absurd (ground arith)
take_some (suc size) (c ∷ t) p e z = let bad = ap length z in absurd (omega (arith, bad))

some_left : (n : ℕ) (t : Text) → n < length t → is_empty (drop n t) ≡ false
some_left n [] h = absurd (omega arith)
some_left zero (c ∷ t) h = refl
some_left (suc n) (c ∷ t) h = some_left n t (omega arith)

read_file-Given :
    (size : ℕ) (f : File) (b : Buffer)
    → 0 < size
    → b.body_file ≡ some f
    → length b.array_buffer ≤ b.start_pos
    → is_empty f.unread ≡ false
    → Given b (read_file size f b)
unfolding read_file
read_file-Given size f b p e h u =
    let nothing = drop_all b.start_pos b.array_buffer h in
    elim (Bool-cases f.fails) [
      | inl q ↦
          let none_left : file_bytes b.body_file ≡ [] = rw (e, q) refl in
          rw q (record {
            same = rw none_left refl;
            rest = [];
            prefix = sym nothing;
            at_last = λ z. at_end_of (release b) h refl;
          })
      | inr q ↦
          let all_left : file_bytes b.body_file ≡ f.unread = rw (e, q) refl in
          rw q (record {
            same = rw (nothing, all_left) (take-append-drop size f.unread);
            rest = [];
            prefix = append-nil (take size f.unread);
            at_last = λ z. absurd (take_some size f.unread p u z);
          })
    ]

read_from-Given :
    (size : ℕ) (o : Option File) (b : Buffer)
    → 0 < size
    → b.body_file ≡ o
    → length b.array_buffer ≤ b.start_pos
    → file_at_end o ≡ false
    → Given b (read_from size o b)
read_from-Given size none b p e h u = absurd (ground arith)
read_from-Given size (some f) b p e h u = read_file-Given size f b p e h u

pub get_data-Given : (size : ℕ) (b : Buffer) → 0 < size → Given b (get_data size b)
unfolding get_data
get_data-Given size b p =
    let some_size : (size == 0) ≡ false = ground arith in
    elim (Bool-cases (ltb b.start_pos (length b.array_buffer))) [
      | inl q ↦
          let left = some_left b.start_pos b.array_buffer (ltb→lt _ _ q) in
          rw (some_size, q)
            (record {
              same = refl;
              rest = drop size (in_memory b);
              prefix = take-append-drop size (in_memory b);
              at_last = λ z. absurd (take_some size (in_memory b) p left z);
            })
      | inr q ↦ elim (Bool-cases (file_at_end b.body_file)) [
        | inl q' ↦
            rw (some_size, q, q')
              (record {
                same = refl;
                rest = in_memory b;
                prefix = refl;
                at_last = λ z. at_end_of b (ground arith) q';
              })
        | inr q' ↦
            rw (some_size, q, q') (read_from-Given size b.body_file b p refl (ground arith) q')
      ]
    ]
