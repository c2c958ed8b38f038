-- ===== src/Agent/Tools/Streams.antt =====
-- DockerPodmanSandboxRunner._read_bounded of tools.py: what is kept of a stream that is read in
-- pieces. The stream is the list of what its reads return; an empty read is its end.
use astra_agent.Base.{
  ℕ, zero, suc, ◌+◌, ◌-◌, ◌≤◌, inl, inr, Bool-cases, Bool, true, false, List, [], ◌∷◌, ◌++◌, ◌≡◌,
  refl, sym, ltb, leb, length, take, if◌then◌else◌, length-append, append_assoc, append-nil, arith,
  ap,
}
use astra_agent.Agent.Tools.Paths.{Bytes}

-- `b"".join(chunks)`
unfoldable pub concat : List Bytes → Bytes
concat [] = []
concat (chunk ∷ chunks) = chunk ++ concat chunks

abbrev pub minimum : ℕ → ℕ → ℕ
minimum a b = if leb a b then a else b

-- The loop, with its three variables. `total` counts what `chunks` holds and never exceeds
-- `max_output_bytes`, so the difference is none below 0.
unfoldable pub read_loop : ℕ → List Bytes → ℕ → Bool → List Bytes → Bytes × Bool
read_loop max_output_bytes chunks total truncated [] = (concat chunks, truncated)
read_loop max_output_bytes chunks total truncated ([] ∷ reads) = (concat chunks, truncated)
read_loop max_output_bytes chunks total truncated ((byte ∷ bytes) ∷ reads) =
    let chunk = byte ∷ bytes in
    let remaining = max_output_bytes - total in
    let over = if ltb remaining (length chunk) then true else truncated in
    let kept =
      read_loop max_output_bytes (chunks ++ take remaining chunk ∷ [])
        (total + minimum (length chunk) remaining) over reads in
    let dropped = read_loop max_output_bytes chunks total over reads in
    if ltb 0 remaining then kept else dropped

unfoldable pub read_bounded : ℕ → List Bytes → Bytes × Bool
read_bounded max_output_bytes reads = read_loop max_output_bytes [] 0 false reads

-- What the stream holds: the reads up to the first empty one.
unfoldable pub contents : List Bytes → Bytes
contents [] = []
contents ([] ∷ reads) = []
contents ((byte ∷ bytes) ∷ reads) = (byte ∷ bytes) ++ contents reads

take-append :
    (n : ℕ) (xs ys : Bytes) → take n (xs ++ ys) ≡ take n xs ++ take (n - length (take n xs)) ys
take-append zero xs ys = refl
take-append (suc n) [] ys = ap (λ k. take k ys) {x = suc n} {y = suc n - 0} (omega arith)
take-append (suc n) (x ∷ xs) ys =
    rw (take-append n xs ys) (ap (λ k. x ∷ take n xs ++ take k ys) (omega arith))

length-take : (n : ℕ) (xs : Bytes) → length (take n xs) ≡ minimum n (length xs)
length-take zero xs = ground arith
length-take (suc n) [] = ground arith
length-take (suc n) (x ∷ xs) = ground (arith, length-take n xs)

take_all : (n : ℕ) (xs : Bytes) → length xs ≤ n → take n xs ≡ xs
take_all zero [] h = refl
take_all zero (x ∷ xs) h = absurd (omega arith)
take_all (suc n) [] h = refl
take_all (suc n) (x ∷ xs) h = ap (λ ys. x ∷ ys) (take_all n xs (omega arith))

concat-append :
    (chunks : List Bytes) (chunk : Bytes) → concat (chunks ++ chunk ∷ []) ≡ concat chunks ++ chunk
unfolding concat
concat-append [] chunk = append-nil chunk
concat-append (c ∷ cs) chunk = rw (concat-append cs chunk) (sym (append_assoc c (concat cs) chunk))

-- One round keeps what the loop has: `chunks` is the start of what was read, `seen`.
module _ (max_output_bytes : ℕ) where
  record IsReading (chunks : List Bytes) (total : ℕ) (truncated : Bool) (seen : Bytes)
      : Type 0 where
    joined : concat chunks ≡ take max_output_bytes seen
    counted : total ≡ minimum max_output_bytes (length seen)
    marked : truncated ≡ ltb max_output_bytes (length seen)

  over_after :
      (chunks : List Bytes) (total : ℕ) (truncated : Bool) (seen chunk : Bytes)
      → IsReading chunks total truncated seen
      → (if ltb (max_output_bytes - total) (length chunk) then true else truncated)
        ≡ ltb max_output_bytes (length (seen ++ chunk))
  over_after chunks total truncated seen chunk h =
      rw (length-append seen chunk) (ground (arith, h.counted, h.marked))

  keep :
      (chunks : List Bytes) (total : ℕ) (truncated : Bool) (seen chunk : Bytes)
      → IsReading chunks total truncated seen
      → IsReading
          (chunks ++ take (max_output_bytes - total) chunk ∷ [])
          (total + minimum (length chunk) (max_output_bytes - total))
          (if ltb (max_output_bytes - total) (length chunk) then true else truncated)
          (seen ++ chunk)
  keep chunks total truncated seen chunk h =
      let room : max_output_bytes - total ≡ max_output_bytes - length (take max_output_bytes seen) =
        rw (length-take max_output_bytes seen, h.counted) refl in
      record {
        joined =
            rw (concat-append chunks (take (max_output_bytes - total) chunk), h.joined, room)
              (sym (take-append max_output_bytes seen chunk));
        counted = rw (length-append seen chunk) (ground (arith, h.counted));
        marked = over_after chunks total truncated seen chunk h;
      }

  skip :
      (chunks : List Bytes) (total : ℕ) (truncated : Bool) (seen chunk : Bytes)
      → max_output_bytes ≤ total
      → IsReading chunks total truncated seen
      → IsReading chunks total
          (if ltb (max_output_bytes - total) (length chunk) then true else truncated)
          (seen ++ chunk)
  skip chunks total truncated seen chunk full h =
      let none_left : max_output_bytes - length (take max_output_bytes seen) ≡ 0 =
        rw (length-take max_output_bytes seen) (ground (arith, h.counted, full)) in
      record {
        joined =
            rw (h.joined, take-append max_output_bytes seen chunk, none_left)
              (sym (append-nil (take max_output_bytes seen)));
        counted = rw (length-append seen chunk) (ground (arith, h.counted, full));
        marked = over_after chunks total truncated seen chunk h;
      }

  read_loop-keeps :
      (reads chunks : List Bytes) (total : ℕ) (truncated : Bool) (seen : Bytes)
      → IsReading chunks total truncated seen
      → read_loop max_output_bytes chunks total truncated reads ≡ (
        take max_output_bytes (seen ++ contents reads),
        ltb max_output_bytes (length (seen ++ contents reads)),
      )
  unfolding read_loop contents
  read_loop-keeps [] chunks total truncated seen h = rw (append-nil seen, h.joined, h.marked) refl
  read_loop-keeps ([] ∷ reads) chunks total truncated seen h =
      rw (append-nil seen, h.joined, h.marked) refl
  read_loop-keeps ((byte ∷ bytes) ∷ reads) chunks total truncated seen h =
      rw (← append_assoc seen (byte ∷ bytes) (contents reads))
        elim (Bool-cases (ltb 0 (max_output_bytes - total))) [
          | inl room ↦ rw room (
              read_loop-keeps reads _ _ _ (seen ++ byte ∷ bytes)
                (keep chunks total truncated seen (byte ∷ bytes) h))
          | inr full ↦ rw full (
              read_loop-keeps reads _ _ _ (seen ++ byte ∷ bytes)
                (skip chunks total truncated seen (byte ∷ bytes) (ground (arith, full)) h))
        ]

-- What is kept of a stream is its first `max_output_bytes` bytes, and it is marked as truncated
-- exactly when the stream holds more, however the stream is cut into pieces.
pub read_bounded-contents :
    (max_output_bytes : ℕ) (reads : List Bytes)
    → read_bounded max_output_bytes reads
      ≡ (take max_output_bytes (contents reads), ltb max_output_bytes (length (contents reads)))
unfolding read_bounded concat
read_bounded-contents max_output_bytes reads =
    read_loop-keeps max_output_bytes reads [] 0 false [] (record {
      joined = sym (take_all max_output_bytes [] (omega arith));
      counted = ground arith;
      marked = ground arith;
    })
