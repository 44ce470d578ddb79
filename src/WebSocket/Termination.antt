-- ===== src/WebSocket/Termination.antt =====
-- The parser of src/tabstractwebsocket.cpp always ends: each round of its loop consumes a byte.
use tf.Base.{
  ℕ, zero, suc, ◌+◌, ◌-◌, ◌^◌, ◌≤◌, ◌<◌, min, ◌≡◌, refl, subst, ap, inl, inr, Bool, true, false,
  List, [], ◌∷◌, ◌++◌, some, length, take, drop, arith, length-append, length-take, length-drop,
  Bool-cases, ◌==◌,
}
use tf.Base.Bytes.{be_value}
use tf.WebSocket.Frame.{
  Frame, ProcessingState, empty, header_parsed, more_data, completed, clear, validate,
}
use tf.WebSocket.Parser.{
  Header, incomplete, protocol_error, whole, read_mask, read_length, read_header, header_done,
  unmask, append_payload, Outcome, parsed, Next, again, stop, accept, settle, missing, after_header,
  empty_step, payload_step, step, loop, resume, parse,
}

-- What holds of the current frame between two rounds: no payload before the header is whole, and
-- a payload shorter than announced until the frame is completed.
abbrev pub ReadingAt : ProcessingState → Frame → Type 0
ReadingAt empty f = f.payload ≡ []
ReadingAt header_parsed f = (length f.payload < f.payload_length) × (f.payload_length < 2 ^ 31)
ReadingAt more_data f = (length f.payload < f.payload_length) × (f.payload_length < 2 ^ 31)
ReadingAt completed f = ⊥

abbrev pub IsReading : Frame → Type 0
IsReading f = ReadingAt f.state f

-- The same, or a frame that has just been completed.
abbrev SettledAt : ProcessingState → Frame → Type 0
SettledAt completed f = Unit
SettledAt s f = ReadingAt s f

-- A round that goes on leaves fewer than n bytes and a frame that is being read.
abbrev Progress : ℕ → Next → Type 0
Progress n (again before f rest) = IsReading f × (length rest < n)
Progress n (stop o) = Unit

accept-Progress :
    (n : ℕ) (before : List Frame) (r : Bool × Frame) (rest : List ℕ)
    → length rest < n
    → Progress n (accept before r rest)
unfolding accept clear
accept-Progress n before (false, f) rest h = (refl, h)
accept-Progress n before (true, f) [] h = ground arith
accept-Progress n before (true, f) (b ∷ rest) h = ground arith

settle-Progress :
    (n : ℕ) (before : List Frame) (f : Frame) (rest : List ℕ) (s : ProcessingState)
    → f.state ≡ s
    → SettledAt s f
    → length rest < n
    → Progress n (settle before f rest)
unfolding settle
settle-Progress n before f rest empty e r h = rw (e, settle) (rw e r, h)
settle-Progress n before f rest header_parsed e r h = rw (e, settle) (rw e r, h)
settle-Progress n before f rest more_data e r h = rw (e, settle) (rw e r, h)
settle-Progress n before f rest completed e r h =
    rw (e, settle) (accept-Progress n before (validate f) rest h)

-- A whole header keeps the payload and leaves at most what it was given.
abbrev HeaderKeeps : List ℕ → ℕ → Header → Type 0
HeaderKeeps payload n (whole g unread) = (g.payload ≡ payload) × (length unread ≤ n)
HeaderKeeps payload n _ = Unit

read_mask-HeaderKeeps :
    (m : Bool) (f : Frame) (rest : List ℕ)
    → HeaderKeeps f.payload (length rest) (read_mask m f rest)
unfolding read_mask
read_mask-HeaderKeeps m f rest = ground (arith, length-drop 4 rest)

read_length-HeaderKeeps :
    (m : Bool) (len : ℕ) (f : Frame) (rest : List ℕ)
    → HeaderKeeps f.payload (length rest) (read_length m len f rest)
unfolding read_length
read_length-HeaderKeeps m len f rest = ground (
  arith,
  read_mask-HeaderKeeps m (record f { payload_length = be_value (take 2 rest) }) (drop 2 rest),
  read_mask-HeaderKeeps m (record f { payload_length = be_value (take 8 rest) }) (drop 8 rest),
  read_mask-HeaderKeeps m (record f { payload_length = len }) rest,
  length-drop 2 rest,
  length-drop 8 rest,
)

HeaderKeeps-mono :
    (p : List ℕ) (m n : ℕ) (h : Header) → m ≤ n → HeaderKeeps p m h → HeaderKeeps p n h
HeaderKeeps-mono p m n (whole g unread) le k = ground arith
HeaderKeeps-mono p m n _ le k = tt

read_header-HeaderKeeps :
    (f : Frame) (b : ℕ) (rest : List ℕ)
    → HeaderKeeps f.payload (length rest) (read_header f (b ∷ rest))
unfolding read_header
read_header-HeaderKeeps f b [] = tt
read_header-HeaderKeeps f b (c ∷ rest) =
    HeaderKeeps-mono f.payload (length rest) (suc (length rest)) _ (omega arith)
      (read_length-HeaderKeeps _ _ (record f { first_byte = b }) rest)

header_done-SettledAt :
    (g : Frame) → g.payload ≡ [] → SettledAt (header_done g).state (header_done g)
unfolding header_done clear
header_done-SettledAt g e = ground arith

after_header-Progress :
    (before : List Frame) (b : ℕ) (bytes : List ℕ) (k : ℕ) (h : Header)
    → HeaderKeeps [] k h
    → Progress (length (b ∷ bytes)) (after_header before (b ∷ bytes) (suc k) h)
unfolding after_header
after_header-Progress before b bytes k (incomplete g) h = tt
after_header-Progress before b bytes k (protocol_error g) h = tt
after_header-Progress before b bytes k (whole g unread) (e, le) =
    settle-Progress _ before (header_done g) _ _ refl (header_done-SettledAt g e)
      (omega (arith, length-drop (suc k - length unread) (b ∷ bytes)))

empty_step-Progress :
    (before : List Frame) (f : Frame) (b : ℕ) (bytes : List ℕ)
    → f.payload ≡ []
    → Progress (length (b ∷ bytes)) (empty_step before f (b ∷ bytes))
unfolding empty_step
empty_step-Progress before f b bytes e =
    after_header-Progress before b bytes (length (take 13 bytes))
      (read_header f (b ∷ take 13 bytes))
      (subst (λ p. HeaderKeeps p (length (take 13 bytes)) (read_header f (b ∷ take 13 bytes))) e
        (read_header-HeaderKeeps f b (take 13 bytes)))

length-unmask : (key i : ℕ) (cs : List ℕ) → length (unmask key i cs) ≡ length cs
unfolding unmask
length-unmask key i [] = refl
length-unmask key i (c ∷ cs) = ap suc (length-unmask key (i + 1) cs)

append_payload-SettledAt :
    (f : Frame) (chunk : List ℕ)
    → length f.payload + length chunk ≤ f.payload_length
    → f.payload_length < 2 ^ 31
    → SettledAt (append_payload f chunk).state (append_payload f chunk)
unfolding append_payload
append_payload-SettledAt f chunk h k = ground (
  arith,
  length-append f.payload chunk,
  length-append f.payload (unmask f.mask_key (length f.payload) chunk),
  length-unmask f.mask_key (length f.payload) chunk,
)

payload_step-Progress :
    (before : List Frame) (f : Frame) (b : ℕ) (bytes : List ℕ)
    → length f.payload < f.payload_length
    → f.payload_length < 2 ^ 31
    → Progress (length (b ∷ bytes)) (payload_step before f (b ∷ bytes))
unfolding payload_step
payload_step-Progress before f b bytes h k =
    let size = min (missing f) (suc (length bytes)) in
    elim (Bool-cases (size == 0)) [
      | inl e ↦ absurd (ground arith)
      | inr e ↦
          rw (e, payload_step)
            (settle-Progress _ before _ _ _ refl
              (append_payload-SettledAt f _ (ground (arith, length-take size (b ∷ bytes))) k)
              (ground (arith, length-drop size (b ∷ bytes))))
    ]

step-Progress :
    (before : List Frame) (f : Frame) (b : ℕ) (bytes : List ℕ) (s : ProcessingState)
    → f.state ≡ s
    → ReadingAt s f
    → Progress (length (b ∷ bytes)) (step before f (b ∷ bytes))
unfolding step
step-Progress before f b bytes empty e r = rw (e, step) (empty_step-Progress before f b bytes r)
step-Progress before f b bytes header_parsed e r =
    rw (e, step) (payload_step-Progress before f b bytes r.0 r.1)
step-Progress before f b bytes more_data e r =
    rw (e, step) (payload_step-Progress before f b bytes r.0 r.1)
step-Progress before f b bytes completed e r = absurd r

abbrev Ends : ℕ → List Frame → Frame → List ℕ → Type 0
Ends fuel before f bytes = (o : Outcome) × (loop fuel before f bytes ≡ some o)

loop_step :
    (fuel : ℕ) (before : List Frame) (f : Frame) (b : ℕ) (bytes : List ℕ) (n : Next)
    → step before f (b ∷ bytes) ≡ n
    → Progress (suc fuel) n
    → ((before' : List Frame) (f' : Frame) (bytes' : List ℕ)
        → IsReading f'
        → length bytes' ≤ fuel
        → Ends fuel before' f' bytes')
    → Ends (suc fuel) before f (b ∷ bytes)
unfolding loop
loop_step fuel before f b bytes (again before' f' bytes') e (r, lt) rest =
    let (o, ends) = rest before' f' bytes' r (omega arith) in (o, rw (e, loop) ends)
loop_step fuel before f b bytes (stop o) e p rest = (o, rw (e, loop))

Progress-mono : (m n : ℕ) (x : Next) → m ≤ n → Progress m x → Progress n x
Progress-mono m n (again before f rest) le (r, lt) = (r, omega arith)
Progress-mono m n (stop o) le p = tt

-- With as much fuel as there are bytes, the loop ends.
loop_total :
    (fuel : ℕ) (before : List Frame) (f : Frame) (bytes : List ℕ)
    → IsReading f
    → length bytes ≤ fuel
    → Ends fuel before f bytes
unfolding loop
loop_total zero before f [] r le = (parsed (before ++ f ∷ []) [], refl)
loop_total zero before f (b ∷ bytes) r le = absurd (omega arith)
loop_total (suc fuel) before f [] r le = (parsed (before ++ f ∷ []) [], refl)
loop_total (suc fuel) before f (b ∷ bytes) r le =
    loop_step fuel before f b bytes _ refl
      (Progress-mono (length (b ∷ bytes)) (suc fuel) (step before f (b ∷ bytes)) le
        (step-Progress before f b bytes f.state refl r))
      (λ before' f' bytes' r' le'. loop_total fuel before' f' bytes' r' le')

-- The last frame of the list is completed or still being read.
abbrev pub CanResume : List Frame → Type 0
CanResume [] = Unit
CanResume (f ∷ []) = SettledAt f.state f
CanResume (f ∷ g ∷ fs) = CanResume (g ∷ fs)

resume-one :
    (f : Frame) (s : ProcessingState) → f.state ≡ s → SettledAt s f → IsReading (resume (f ∷ [])).1
unfolding resume
resume-one f empty e r = rw (e, resume) (rw e r)
resume-one f header_parsed e r = rw (e, resume) (rw e r)
resume-one f more_data e r = rw (e, resume) (rw e r)
resume-one f completed e r = rw (e, resume) refl

resume-IsReading : (frames : List Frame) → CanResume frames → IsReading (resume frames).1
unfolding resume
resume-IsReading [] r = refl
resume-IsReading (f ∷ []) r = resume-one f f.state refl r
resume-IsReading (f ∷ g ∷ fs) r = resume-IsReading (g ∷ fs) r

-- Whatever bytes arrive on a connection whose last frame is completed or still being read, parsing
-- ends: it never runs out of its fuel of one round a byte.
pub parse_total :
    (frames : List Frame) (bytes : List ℕ)
    → CanResume frames
    → (o : Outcome) × (parse frames bytes ≡ some o)
unfolding parse
parse_total frames bytes r =
    loop_total (length bytes) (resume frames).0 (resume frames).1 bytes (resume-IsReading frames r)
      (omega arith)
