-- ===== src/Columns/Runs.antt =====
-- What `UIntOptRleEncoder` and `IntDiffOptRleEncoder` share: a run of equal keys that is pending, and
-- `flush`, which writes it; and the decoders' side, which reads a run and hands it out.
use y_crdt.Common.{
  ℕ, zero, suc, ◌+◌, ◌-◌, ◌^◌, ◌<◌, ◌≤◌, ◌≡◌, ◌↔◌, refl, ap, Bool, true, false, List, [], ◌∷◌, ◌++◌,
  append_assoc, append-nil, length, ltb, ◌==◌, if◌then◌else◌, arith, tests, Bool-cases, inl, inr,
}
use y_crdt.Encoding.{Result, ok, panic, ◌>>=◌}

-- The fields `buf`, `last` or `diff`, and `count` of an encoder.
pub record Runs (K : Type 0) : Type 0 where
  pub buf : List ℕ
  pub key : K
  pub count : ℕ

-- The fields `cursor`, `last` or `diff`, and `count` of a decoder.
pub record Reader (K : Type 0) : Type 0 where
  pub bytes : List ℕ
  pub key : K
  pub count : ℕ

-- `count += 1` on `u32`.
abbrev pub count_up : {K : Type 0} → Runs K → Result (Runs K)
count_up r = if ltb (r.count + 1) (2 ^ 32) then ok (record r { count = r.count + 1 }) else panic

module _ {K : Type 0} (same : K → K → Bool) (emit : K → ℕ → Result (List ℕ)) where
  unfoldable pub flush : Runs K → Result (List ℕ)
  flush r =
      if ltb 0 r.count then emit r.key r.count >>= (λ bytes. ok (r.buf ++ bytes)) else ok r.buf

  unfoldable pub push_run : Runs K → K → Result (Runs K)
  push_run r key =
      if same r.key key
      then count_up r
      else flush r >>= (λ buf. ok (record { buf = buf; key = key; count = 1 }))

  unfoldable pub push_all : Runs K → List K → Result (List ℕ)
  push_all r [] = flush r
  push_all r (k ∷ ks) = push_run r k >>= (λ r'. push_all r' ks)

module _ {K : Type 0} (take_run : List ℕ → Result ((K × ℕ) × List ℕ)) where
  abbrev pub start_run : (K × ℕ) × List ℕ → Result (Reader K)
  start_run ((key, count), bytes) = ok (record { bytes = bytes; key = key; count = count })

  -- Read a run if none is left, and hand out one key of it.
  unfoldable pub next_key : Reader K → Result (K × Reader K)
  next_key d =
      (if d.count == 0 then take_run d.bytes >>= start_run else ok d)
      >>= (λ e. ok (e.key, record e { count = e.count - 1 }))

  unfoldable pub next_keys : ℕ → Reader K → Result (List K × Reader K)
  next_keys zero d = ok ([], d)
  next_keys (suc n) d = next_key d >>= (λ p. next_keys n p.1 >>= (λ q. ok (p.0 ∷ q.0, q.1)))

abbrev pub repeat {ℓ} : {A : Type ℓ} → ℕ → A → List A
repeat zero a = []
repeat (suc n) a = a ∷ repeat n a

module _ {K : Type 0} where
  repeat_more : (c : ℕ) (k : K) (ks : List K) → repeat (suc c) k ++ ks ≡ repeat c k ++ (k ∷ ks)
  repeat_more zero k ks = refl
  repeat_more (suc c) k ks = ap (λ r. k ∷ r) (repeat_more c k ks)

  pub repeat_alike :
      (c : ℕ) (a k : K) (ks : List K) → a ≡ k → repeat (c + 1) a ++ ks ≡ repeat c a ++ (k ∷ ks)
  repeat_alike c a k ks e =
      let one_more : c + 1 ≡ suc c = omega arith in rw (one_more, ← e) (repeat_more c a ks)

  pub length-repeat : (n : ℕ) (k : K) → length (repeat n k) ≡ n
  length-repeat zero k = refl
  length-repeat (suc n) k = ap suc (length-repeat n k)

abbrev pub AllKeys : {K : Type 0} → (K → Type 0) → List K → Type 0
AllKeys P [] = Unit
AllKeys P (k ∷ ks) = P k × AllKeys P ks

module _ {K : Type 0} (same : K → K → Bool) (emit : K → ℕ → Result (List ℕ))
    (take_run : List ℕ → Result ((K × ℕ) × List ℕ)) (P : K → Type 0)
    (same_iff : (a b : K) → (same a b ≡ true) ↔ (a ≡ b))
    (emit_take : (k : K) (c : ℕ)
      → P k
      → 0 < c
      → c < 2 ^ 32
      → (bytes : List ℕ) × (emit k c ≡ ok bytes)
        × ((rest : List ℕ) → take_run (bytes ++ rest) ≡ ok ((k, c), rest))) where
  -- From these bytes a reader with no run left reads the keys, and has the rest left.
  abbrev Reads : List ℕ → List K → Type 0
  Reads t ks =
      (rest : List ℕ) (d : Reader K)
      → d.count ≡ 0
      → d.bytes ≡ t ++ rest
      → (e : Reader K) × (next_keys take_run (length ks) d ≡ ok (ks, e))
        × (e.count ≡ 0)
        × (e.bytes ≡ rest)

  next_keys-left :
      (n : ℕ) (d : Reader K)
      → n ≤ d.count
      → next_keys take_run n d ≡ ok (repeat n d.key, record d { count = d.count - n })
  unfolding next_keys next_key
  next_keys-left zero d h = ap (λ (c : ℕ). ok ([], record d { count = c })) (omega arith)
  next_keys-left (suc n) d h =
      let some_left : (d.count == 0) ≡ false = ground arith in
      let ih = next_keys-left n (record d { count = d.count - 1 }) (omega arith) in
      let fewer : d.count - 1 - n ≡ d.count - suc n = omega arith in rw (some_left, ih, fewer) refl

  -- A pending run of the reader comes before what it reads from the bytes.
  read_pending :
      (c : ℕ) (t : List ℕ) (ks : List K) (rest : List ℕ) (d : Reader K)
      → Reads t ks
      → d.count ≡ c
      → d.bytes ≡ t ++ rest
      → (e : Reader K) × (next_keys take_run (length (repeat c d.key ++ ks)) d
          ≡ ok (repeat c d.key ++ ks, e))
        × (e.count ≡ 0)
        × (e.bytes ≡ rest)
  unfolding next_keys next_key
  read_pending zero t ks rest d reads hc hb = reads rest d hc hb
  read_pending (suc c) t ks rest d reads hc hb =
      let some_left : (d.count == 0) ≡ false = ground arith in
      let (e, run, none_left, tail) =
        read_pending c t ks rest (record d { count = d.count - 1 }) reads (omega arith) hb in
      (e, rw (some_left, run) refl, none_left, tail)

  read_run :
      (k : K) (c : ℕ) (bytes t : List ℕ) (ks : List K)
      → 0 < c
      → ((rest : List ℕ) → take_run (bytes ++ rest) ≡ ok ((k, c), rest))
      → Reads t ks
      → Reads (bytes ++ t) (repeat c k ++ ks)
  unfolding next_keys next_key
  read_run k zero bytes t ks h taken reads rest d hc hb = absurd (omega arith)
  read_run k (suc c) bytes t ks h taken reads rest d hc hb =
      let none_left : (d.count == 0) ≡ true = ground arith in
      let (e, run, empty, tail) =
        read_pending c t ks rest (record { bytes = t ++ rest; key = k; count = suc c - 1 }) reads
          (omega arith) refl in
      let here = taken (t ++ rest) in
      (e, rw (none_left, hb, append_assoc bytes t rest, here, run) refl, empty, tail)

  flush_lem :
      (r : Runs K)
      → P r.key
      → r.count < 2 ^ 32
      → (bytes : List ℕ) × (flush same emit r ≡ ok (r.buf ++ bytes))
        × ((t : List ℕ) (ks : List K)
            → Reads t ks
            → Reads (bytes ++ t) (repeat r.count r.key ++ ks))
  unfolding flush
  flush_lem r p h = elim (Bool-cases (ltb 0 r.count)) [
    | inr e ↦
        let none_left : r.count ≡ 0 = omega tests in
        ([], rw (e, append-nil r.buf) refl, λ t ks reads. rw none_left reads)
    | inl e ↦
        let (bytes, written, taken) = emit_take r.key r.count p (omega tests) h in
        (
          bytes,
          rw (e, written) refl,
          λ t ks reads. read_run r.key r.count bytes t ks (omega tests) taken reads,
        )
  ]

  Reads-nil : Reads [] []
  unfolding next_keys
  Reads-nil rest d hc hb = (d, refl, hc, hb)

  -- All keys that were pushed are read back, behind the run that was pending.
  pub push_all-Reads :
      (ks : List K) (r : Runs K)
      → P r.key
      → AllKeys P ks
      → r.count + length ks < 2 ^ 32
      → (bytes : List ℕ) × (push_all same emit r ks ≡ ok (r.buf ++ bytes))
        × Reads bytes (repeat r.count r.key ++ ks)
  unfolding push_all push_run
  push_all-Reads [] r p a h =
      let (bytes, written, reads) = flush_lem r p (omega arith) in
      (bytes, written, rw (append-nil bytes) at (reads [] [] Reads-nil))
  push_all-Reads (k ∷ ks) r p a h = elim (Bool-cases (same r.key k)) [
    | inl e ↦
        let alike : r.key ≡ k = (same_iff r.key k).0 e in
        let room : ltb (r.count + 1) (2 ^ 32) ≡ true = omega tests in
        let (bytes, written, reads) =
          push_all-Reads ks (record r { count = r.count + 1 }) p a.1 (omega arith) in
        (bytes, rw (e, room) written, rw (repeat_alike r.count r.key k ks alike) at reads)
    | inr e ↦
        let (first, flushed, before) = flush_lem r p (omega arith) in
        let (bytes, written, reads) =
          push_all-Reads ks (record { buf = r.buf ++ first; key = k; count = 1 }) a.0 a.1
            (omega arith) in
        (
          first ++ bytes,
          rw (e, flushed, ← append_assoc r.buf first bytes) written,
          before bytes (k ∷ ks) reads,
        )
  ]
