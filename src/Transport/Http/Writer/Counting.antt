-- ===== src/Transport/Http/Writer/Counting.antt =====
-- Interception changes nothing outside, and what it remembers.
use native.Mathlib.Nat.{add-zero, add_assoc}
use kit_go.Prelude.{ℕ, ◌+◌, ◌≡◌, List, none, some, arith}
use kit_go.Transport.Http.Writer.{
  Sent, ResponseWriter, Intercepted, intercepting, Program, done, set_header, add_header,
  write_header, write, copy, outside, copy_to, exec, exec_intercepted,
}

-- The last status code that a program sends, or the one before it.
unfoldable pub code_after : {W A : Type 0} → ResponseWriter W → Program W A → ℕ → W → ℕ
code_after w (done a) code s = code
code_after w (set_header k v p) code s = code_after w p code (w.set_header k v s)
code_after w (add_header k v p) code s = code_after w p code (w.add_header k v s)
code_after w (write_header c p) code s = code_after w p c (w.write_header c s)
code_after w (write bytes p) code s =
    let (sent, s') = w.write bytes s in code_after w (p sent) code s'
code_after w (copy bytes p) code s =
    let (sent, s') = copy_to w bytes s in code_after w (p sent) code s'
code_after w (outside change p) code s = code_after w (p s) code (change s)

-- The bytes of an io.Copy that go through Write.
copied : {W : Type 0} → ResponseWriter W → Sent → ℕ
copied w sent = elim w.read_from [ none ↦ sent.n | some f ↦ 0 ]

-- The bytes that the calls of Write in a program accept.
pub accepted : {W A : Type 0} → ResponseWriter W → Program W A → W → ℕ
unfolding copied
accepted w (done a) s = 0
accepted w (set_header k v p) s = accepted w p (w.set_header k v s)
accepted w (add_header k v p) s = accepted w p (w.add_header k v s)
accepted w (write_header c p) s = accepted w p (w.write_header c s)
accepted w (write bytes p) s = let (sent, s') = w.write bytes s in sent.n + accepted w (p sent) s'
accepted w (copy bytes p) s =
    let (sent, s') = copy_to w bytes s in copied w sent + accepted w (p sent) s'
accepted w (outside change p) s = accepted w (p s) (change s)

module _ {W : Type 0} (w : ResponseWriter W) where
  copy_to-intercepting :
      (bytes : List ℕ) (s : W) (iw : Intercepted)
      → copy_to (intercepting w) bytes (s, iw) ≡ (
        (copy_to w bytes s).0,
        (
          (copy_to w bytes s).1,
          record iw { written = iw.written + copied w (copy_to w bytes s).0 },
        ),
      )
  unfolding copy_to intercepting copied
  copy_to-intercepting bytes s iw = ground (arith, add-zero iw.written)

  -- A program on the intercepting writer returns what it returns on the underlying one and leaves
  -- the outside as it leaves it there. The intercepting writer then holds the last status code
  -- that the program sent, and counts the bytes that its calls of Write accepted.
  pub exec_intercepted-exec :
      {A : Type 0} (p : Program W A) (s : W) (iw : Intercepted)
      → exec_intercepted w p (s, iw) ≡ (
        (exec w p s).0,
        (
          (exec w p s).1,
          record { code = code_after w p iw.code s; written = iw.written + accepted w p s },
        ),
      )
  unfolding exec exec_intercepted intercepting code_after accepted
  exec_intercepted-exec (done a) s iw = rw (add-zero iw.written)
  exec_intercepted-exec (set_header k v p) s iw = exec_intercepted-exec p (w.set_header k v s) iw
  exec_intercepted-exec (add_header k v p) s iw = exec_intercepted-exec p (w.add_header k v s) iw
  exec_intercepted-exec (write_header c p) s iw =
      exec_intercepted-exec p (w.write_header c s) (record iw { code = c })
  exec_intercepted-exec (write bytes p) s iw =
      let (sent, s') = w.write bytes s in
      rw (← add_assoc iw.written sent.n (accepted w (p sent) s'))
        (exec_intercepted-exec (p sent) s' (record iw { written = iw.written + sent.n }))
  exec_intercepted-exec (copy bytes p) s iw =
      let (sent, s') = copy_to w bytes s in
      rw
        (
          copy_to-intercepting bytes s iw,
          ← add_assoc iw.written (copied w sent) (accepted w (p sent) s'),
        )
        (exec_intercepted-exec (p sent) s' (record iw { written = iw.written + copied w sent }))
  exec_intercepted-exec (outside change p) s iw = exec_intercepted-exec (p s) (change s) iw
