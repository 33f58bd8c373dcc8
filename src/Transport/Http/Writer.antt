-- ===== src/Transport/Http/Writer.antt =====
-- transport/http/intercepting_writer.go: what is written, and what is remembered of it.
-- `W` stands for the outside, the connection of the underlying writer included.
pub mod Counting
use kit_go.Prelude.{ℕ, ◌+◌, String, List, [], ◌∷◌, ◌++◌, Option, none, some}
use kit_go.Go.{Error, Act}

-- What Write and ReadFrom return.
pub record Sent : Type 0 where
  pub n : ℕ
  pub err : Option Error

-- An http.ResponseWriter, with its ReadFrom if it has one.
pub record ResponseWriter (W : Type 0) : Type 0 where
  pub set_header : String → String → W → W
  pub add_header : String → String → W → W
  pub write_header : ℕ → W → W
  pub write : List ℕ → Act W Sent
  pub read_from : Option (List ℕ → Act W Sent)

-- The fields of interceptingWriter beside the writer that it wraps.
pub record Intercepted : Type 0 where
  pub code : ℕ
  pub written : ℕ

abbrev pub status_ok : ℕ
status_ok = 200

-- &interceptingWriter{w, http.StatusOK, 0}
unfoldable pub new_intercepted : Intercepted
new_intercepted = record { code = status_ok; written = 0 }

module _ {W : Type 0} (w : ResponseWriter W) where
  -- interceptingWriter.WriteHeader
  pub intercept_write_header : ℕ → W × Intercepted → W × Intercepted
  intercept_write_header code s =
      let (outside, iw) = s in (w.write_header code outside, record iw { code = code })

  -- interceptingWriter.Write
  pub intercept_write : List ℕ → Act (W × Intercepted) Sent
  intercept_write p s =
      let (outside, iw) = s in
      let (sent, outside') = w.write p outside in
      (sent, (outside', record iw { written = iw.written + sent.n }))

  -- A method of the underlying writer, as the struct of reimplementInterfaces passes it on.
  pass_on : Option (List ℕ → Act W Sent) → Option (List ℕ → Act (W × Intercepted) Sent)
  pass_on none = none
  pass_on (some f) = some (λ p s. let (sent, outside') = f p s.0 in (sent, (outside', s.1)))

  -- The writer that `reimplementInterfaces` returns, with the ReadFrom of the wrapped writer.
  pub intercepting : ResponseWriter (W × Intercepted)
  unfolding intercept_write_header intercept_write pass_on
  intercepting = record {
    set_header = λ k v s. (w.set_header k v s.0, s.1);
    add_header = λ k v s. (w.add_header k v s.0, s.1);
    write_header = intercept_write_header;
    write = intercept_write;
    read_from = pass_on w.read_from;
  }

-- What a function does that is given a writer, an action at a time. `copy` is io.Copy to the
-- writer, of bytes that are at hand; `outside` reads and changes what is not the writer.
pub data Program (W A : Type 0) : Type 0 where
  done : A → Program W A
  set_header add_header : String → String → Program W A → Program W A
  write_header : ℕ → Program W A → Program W A
  write : List ℕ → (Sent → Program W A) → Program W A
  copy : List ℕ → (Sent → Program W A) → Program W A
  outside : (W → W) → (W → Program W A) → Program W A

infixl 5 ◌>>=◌ ◌>>◌
unfoldable pub ◌>>=◌ : {W A B : Type 0} → Program W A → (A → Program W B) → Program W B
done a >>= f = f a
set_header k v p >>= f = set_header k v (p >>= f)
add_header k v p >>= f = add_header k v (p >>= f)
write_header code p >>= f = write_header code (p >>= f)
write bytes p >>= f = write bytes (λ sent. p sent >>= f)
copy bytes p >>= f = copy bytes (λ sent. p sent >>= f)
outside change p >>= f = outside change (λ w. p w >>= f)

abbrev pub ◌>>◌ : {W A B : Type 0} → Program W A → Program W B → Program W B
p >> q = p >>= λ _. q

-- io.Copy: ReadFrom where the writer has it, and Write otherwise.
unfoldable pub copy_to : {W : Type 0} → ResponseWriter W → List ℕ → Act W Sent
copy_to w bytes s = elim w.read_from [ none ↦ w.write bytes s | some f ↦ f bytes s ]

-- A program on the underlying writer.
unfoldable pub exec : {W A : Type 0} → ResponseWriter W → Program W A → Act W A
exec w (done a) s = (a, s)
exec w (set_header k v p) s = exec w p (w.set_header k v s)
exec w (add_header k v p) s = exec w p (w.add_header k v s)
exec w (write_header code p) s = exec w p (w.write_header code s)
exec w (write bytes p) s = let (sent, s') = w.write bytes s in exec w (p sent) s'
exec w (copy bytes p) s = let (sent, s') = copy_to w bytes s in exec w (p sent) s'
exec w (outside change p) s = exec w (p s) (change s)

-- The same program on a writer that keeps a state of its own beside the outside.
unfoldable pub exec_on : {W S A : Type 0} → ResponseWriter (W × S) → Program W A → Act (W × S) A
exec_on w (done a) s = (a, s)
exec_on w (set_header k v p) s = exec_on w p (w.set_header k v s)
exec_on w (add_header k v p) s = exec_on w p (w.add_header k v s)
exec_on w (write_header code p) s = exec_on w p (w.write_header code s)
exec_on w (write bytes p) s = let (sent, s') = w.write bytes s in exec_on w (p sent) s'
exec_on w (copy bytes p) s = let (sent, s') = copy_to w bytes s in exec_on w (p sent) s'
exec_on w (outside change p) s = exec_on w (p s.0) (change s.0, s.1)

-- The same program on the writer that intercepts.
pub exec_intercepted : {W A : Type 0} → ResponseWriter W → Program W A → Act (W × Intercepted) A
unfolding exec_on
exec_intercepted w p s = exec_on (intercepting w) p s
