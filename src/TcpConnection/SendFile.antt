-- ===== src/TcpConnection/SendFile.antt =====
-- `sendFileInLoop`: what is sent of the file, and what is left to another round.
use muduo_learning.Prelude.{
  ℕ, ◌+◌, ◌-◌, ◌^◌, ◌≤◌, ◌<◌, ◌≡◌, ◌≢◌, ◌∙◌, refl, ap, ap₂, sym, arith, true, false, not, ◌&&◌,
  ◌||◌, ◌==◌, ltb, if◌then◌else◌, List, [], ◌∷◌, ◌++◌, length, slice, slice-add, append-nil,
  Bool-cases, ◌⊎◌, inl, inr,
}
use muduo_learning.Buffer.{readable_bytes, sub_size}
use muduo_learning.Buffer.Fd.{ReadResult}
use muduo_learning.Channel.{is_writing}
use muduo_learning.Loop.{Loop}
use muduo_learning.TcpConnection.{
  State, disconnected, connecting, connected, disconnecting, Conn, Sys, sends_file, epipe,
  econnreset, after_sendfile, sendfile_directly, requeue_rest, send_file_from, send_file_in_loop,
  write_completes, is_positive,
}
use muduo_learning.Buffer.Invariant.{IsValid}
use muduo_learning.Buffer.Contents.{contents, length-contents}
use muduo_learning.TcpConnection.Invariant.{stream}
use muduo_learning.TcpConnection.Sending.{nil_of_length}

-- The documented behaviour of `sendfile`: at most `n` bytes, and those of the file from the offset on.
abbrev pub FileSends : List ℕ → ℕ → ℕ → ReadResult → Type 0
FileSends bytes offset n (ReadResult.failed e) = Unit
FileSends bytes offset n (ReadResult.got xs) =
    (length xs ≤ n) × (xs ≡ slice bytes offset (length xs))

pub record SendsFile (sys : Sys) (content : ℕ → List ℕ) : Type 0 where
  pub sendfile_sends :
      (k file offset n : ℕ) → FileSends (content file) offset n (sys.sendfile k file offset n)

is_positive_lem : (n : ℕ) → n < 2 ^ 63 → is_positive n ≡ ltb 0 n
is_positive_lem n h = ground (arith, h)

sub_size_lem : (n k : ℕ) → n < 2 ^ 63 → k ≤ n → sub_size n k ≡ n - k
sub_size_lem n k h fits = omega (arith, h, fits)

module _ (l : Loop) (sys : Sys) where
  -- After `m` of `n` bytes: the rest is queued, or nothing is left; then the callback is queued, if
  -- it is set and `sendfile` was called.
  abbrev pub Left : ℕ → ℕ → ℕ → ℕ → Conn l → Conn l → Type 0
  Left file offset n m w w' =
      ((m < n) × (w'.tasks ≡ w.tasks ++ sends_file file (offset + m) (n - m) ∷ []))
      ⊎ ((m ≡ n)
          × ((w'.tasks ≡ w.tasks)
              ⊎ ((w.has_write_complete ≡ true) × (w'.tasks ≡ w.tasks ++ write_completes ∷ []))))

  -- What was sent and what is still to be sent make up what was asked for, and exactly what is still
  -- to be sent is asked for again.
  abbrev pub Transfers : List ℕ → ℕ → ℕ → ℕ → Conn l → Conn l → Type 0
  Transfers bytes file offset n w w' =
      (m : ℕ) × (m ≤ n)
      × ((m ≡ 0) ⊎ ((is_writing w.channel ≡ false) × (contents w.output ≡ [])))
      × (w'.sent ≡ w.sent ++ slice bytes offset m)
      × (stream l w' ≡ stream l w ++ slice bytes offset m)
      × (slice bytes offset n ≡ slice bytes offset m ++ slice bytes (offset + m) (n - m))
      × Left file offset n m w w'
      × (w'.output ≡ w.output)
      × (w'.state ≡ w.state)

  -- `sendfile` failed for good: nothing was sent and nothing is asked for again.
  abbrev pub Fails : ℕ → ℕ → ℕ → Conn l → Conn l → Type 0
  Fails file offset n w w' =
      (e : ℕ) × (sys.sendfile w.calls file offset n ≡ ReadResult.failed e)
      × ((e == epipe || e == econnreset) ≡ true)
      × (w'.sent ≡ w.sent)
      × (w'.tasks ≡ w.tasks)
      × (w'.output ≡ w.output)

  cut :
      (bytes : List ℕ) (offset n m : ℕ)
      → m ≤ n
      → slice bytes offset n ≡ slice bytes offset m ++ slice bytes (offset + m) (n - m)
  cut bytes offset n m h =
      let whole : n ≡ m + (n - m) = omega arith in
      ap (slice bytes offset) whole ∙ slice-add bytes offset m (n - m)

  -- Where the tasks that are queued for what is left stand.
  Left-waits :
      (file offset n : ℕ) (w w' : Conn l)
      → w'.tasks ≡ (if is_positive n then w.tasks ++ sends_file file offset n ∷ [] else w.tasks)
      → n < 2 ^ 63
      → Left file offset n 0 w w'
  Left-waits file offset n w w' t small = elim (Bool-cases (ltb 0 n)) [
    | inl more ↦ inl (
      ground (arith, more),
      t
          ∙ ap (λ b. if b then w.tasks ++ sends_file file offset n ∷ [] else w.tasks)
              (is_positive_lem n small ∙ more)
          ∙ ap₂ (λ (p k : ℕ). w.tasks ++ sends_file file p k ∷ []) (omega arith) (omega arith),
    )
    | inr nothing ↦ inr (
      ground (arith, nothing),
      inl (
          t
          ∙ ap (λ b. if b then w.tasks ++ sends_file file offset n ∷ [] else w.tasks)
              (is_positive_lem n small ∙ nothing)),
    )
  ]

  -- A round that sends nothing.
  waits :
      (bytes : List ℕ) (file offset n : ℕ) (w w' : Conn l)
      → n < 2 ^ 63
      → w'.sent ≡ w.sent
      → w'.tasks ≡ (if is_positive n then w.tasks ++ sends_file file offset n ∷ [] else w.tasks)
      → w'.output ≡ w.output
      → w'.state ≡ w.state
      → Transfers bytes file offset n w w'
  waits bytes file offset n w w' small a t o s = (
    0,
    omega arith,
    inl refl,
    a ∙ sym (append-nil w.sent),
    ap₂ (λ x y. x ++ contents y) a o ∙ sym (append-nil (stream l w)),
    cut bytes offset n 0 (omega arith),
    Left-waits file offset n w w' t small,
    o,
    s,
  )

  -- The tasks after `k` bytes were sent, where `done` is the test of `remaining == 0`.
  Left-sent :
      (file offset n k : ℕ) (w w' : Conn l)
      → n < 2 ^ 63
      → k ≤ n
      → (let r = sub_size n k in
          let ts =
            if r == 0 && w.has_write_complete then w.tasks ++ write_completes ∷ [] else w.tasks in
          w'.tasks ≡ (if is_positive r then ts ++ sends_file file (offset + k) r ∷ [] else ts))
      → Left file offset n k w w'
  Left-sent file offset n k w w' small fits t =
      let size = sub_size_lem n k small fits in
      let ts = λ (r : ℕ).
        if r == 0 && w.has_write_complete then w.tasks ++ write_completes ∷ [] else w.tasks in
      let whole =
        λ (r : ℕ). if is_positive r then ts r ++ sends_file file (offset + k) r ∷ [] else ts r in
      let now : w'.tasks ≡ whole (n - k) = t ∙ ap whole size in
      elim (Bool-cases (ltb 0 (n - k))) [
        | inl more ↦
            let positive : is_positive (n - k) ≡ true =
              is_positive_lem (n - k) (omega (arith, small)) ∙ more in
            let unfinished : (n - k == 0) ≡ false = ground (arith, more) in
            inl (ground (arith, more), now ∙ rw (positive, unfinished) refl)
        | inr nothing ↦
            let zero_left : n - k ≡ 0 = ground (arith, nothing) in
            inr (
              omega (arith, zero_left, fits),
              elim (Bool-cases w.has_write_complete) [
                | inl set ↦ inr (set, now ∙ ap whole zero_left ∙ rw set refl)
                | inr unset ↦ inl (now ∙ ap whole zero_left ∙ rw unset refl)
              ],
            )
      ]

  after_sendfile_lem :
      (r : ReadResult) (bytes : List ℕ) (file offset n : ℕ) (w : Conn l)
      → n < 2 ^ 63
      → is_writing w.channel ≡ false
      → contents w.output ≡ []
      → FileSends bytes offset n r
      → let w' = requeue_rest l sys file (after_sendfile l sys r file offset n w) in
        Transfers bytes file offset n w w'
        ⊎ ((e : ℕ) × (r ≡ ReadResult.failed e)
            × ((e == epipe || e == econnreset) ≡ true)
            × (w'.sent ≡ w.sent)
            × (w'.tasks ≡ w.tasks)
            × (w'.output ≡ w.output))
  unfolding after_sendfile
  after_sendfile_lem (ReadResult.failed e) bytes file offset n w small idle empty h =
      elim (Bool-cases (e == epipe || e == econnreset)) [
        | inl fault ↦ inr (e, refl, fault, refl, rw fault refl, refl)
        | inr again ↦ inl (
            waits bytes file offset n w
              (requeue_rest l sys file (after_sendfile l sys (ReadResult.failed e) file offset n w))
              small refl (rw again refl) refl refl)
      ]
  after_sendfile_lem (ReadResult.got xs) bytes file offset n w small idle empty h =
      let w' = requeue_rest l sys file (after_sendfile l sys (ReadResult.got xs) file offset n w) in
      let sent : w'.sent ≡ w.sent ++ slice bytes offset (length xs) = ap (λ ys. w.sent ++ ys) h.1 in
      inl (
        length xs,
        h.0,
        inr (idle, empty),
        sent,
        ap₂ (λ a c. a ++ c) sent empty
            ∙ append-nil (w.sent ++ slice bytes offset (length xs))
            ∙ ap (λ a. a ++ slice bytes offset (length xs))
                (sym (ap (λ c. w.sent ++ c) empty ∙ append-nil w.sent)),
        cut bytes offset n (length xs) h.0,
        Left-sent file offset n (length xs) w w' small h.0 refl,
        refl,
        refl,
      )

  round_lem :
      (content : ℕ → List ℕ) (file offset n : ℕ) (w : Conn l)
      → SendsFile sys content
      → n < 2 ^ 63
      → IsValid w.output
      → let w' = requeue_rest l sys file (sendfile_directly l sys file offset n w) in
        Transfers (content file) file offset n w w' ⊎ Fails file offset n w w'
  unfolding sendfile_directly
  round_lem content file offset n w doc small v =
      elim (Bool-cases (not (is_writing w.channel) && readable_bytes w.output == 0)) [
        | inl direct ↦
            let empty : contents w.output ≡ [] =
              nil_of_length (contents w.output) (ground (arith, direct, length-contents v)) in
            rw direct (
              after_sendfile_lem (sys.sendfile w.calls file offset n) (content file) file offset n w
                small (ground (arith, direct)) empty (doc.sendfile_sends w.calls file offset n))
        | inr busy ↦ rw busy (
            inl (
              waits (content file) file offset n w (requeue_rest l sys file (w, offset, n, false))
                small refl refl refl refl))
      ]

  send_file_from_lem :
      (st : State) (content : ℕ → List ℕ) (file offset n : ℕ) (w : Conn l)
      → SendsFile sys content
      → n < 2 ^ 63
      → IsValid w.output
      → st ≢ disconnecting
      → let w' = send_file_from l sys st file offset n w in
        Transfers (content file) file offset n w w' ⊎ Fails file offset n w w'
  send_file_from_lem disconnecting content file offset n w doc small v ne = absurd (ne refl)
  send_file_from_lem connected content file offset n w doc small v ne =
      round_lem content file offset n w doc small v
  send_file_from_lem disconnected content file offset n w doc small v ne =
      round_lem content file offset n w doc small v
  send_file_from_lem connecting content file offset n w doc small v ne =
      round_lem content file offset n w doc small v

  -- `sendFileInLoop` outside state kDisconnecting, for a count that fits an `ssize_t`, a valid
  -- output buffer, and a `sendfile` that gives at most the bytes asked for, and those of the file
  -- from the offset on: the file's next `m` bytes are sent, for some `m` that is at most what was
  -- asked for and is 0 unless the channel does not wait for writing and the output buffer is
  -- empty, and they follow all earlier ones on the stream. If some are left, another round for
  -- exactly these is queued and nothing else; if none is left, nothing is queued, or the
  -- write-complete callback, which is set. The output buffer and the state are as they were. Or
  -- else `sendfile` failed with EPIPE or ECONNRESET, nothing was sent, nothing was queued, and the
  -- output buffer is as it was.
  pub send_file_in_loop-Transfers :
      (content : ℕ → List ℕ) (file offset n : ℕ) (w : Conn l)
      → SendsFile sys content
      → n < 2 ^ 63
      → IsValid w.output
      → w.state ≢ disconnecting
      → let w' = send_file_in_loop l sys file offset n w in
        Transfers (content file) file offset n w w' ⊎ Fails file offset n w w'
  unfolding send_file_in_loop
  send_file_in_loop-Transfers content file offset n w doc small v ne =
      send_file_from_lem w.state content file offset n w doc small v ne
