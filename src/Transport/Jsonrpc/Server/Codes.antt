-- ===== src/Transport/Jsonrpc/Server/Codes.antt =====
-- transport/http/jsonrpc/server.go: the codes of the errors that are found before a method runs, and
-- the status code that the finalizer is given.
use kit_go.Prelude.{ℕ, ◌≡◌, refl, List, none, some}
use kit_go.Go.{Act}
use kit_go.Transport.Http.Writer.{
  ResponseWriter, Program, done, set_header, add_header, write_header, write, copy, outside, exec,
  exec_on, copy_to, status_ok,
}
use kit_go.Transport.Http.Writer.Counting.{code_after}
use kit_go.Transport.Jsonrpc.Server.{Server, Keys, Library, coded, respond, serve_http}

module _ {W : Type 0} (w : ResponseWriter W) where
  copy_to-coded :
      (bytes : List ℕ) (s : W) (code : ℕ)
      → w.read_from ≡ none
      → copy_to (coded w) bytes (s, code) ≡ ((copy_to w bytes s).0, ((copy_to w bytes s).1, code))
  unfolding copy_to coded
  copy_to-coded bytes s code e = rw (e) refl

  -- A program on the writer that keeps the code, where the writer below it has no ReadFrom.
  exec_on-coded :
      {A : Type 0} (p : Program W A) (s : W) (code : ℕ)
      → w.read_from ≡ none
      → exec_on (coded w) p (s, code) ≡ ((exec w p s).0, ((exec w p s).1, code_after w p code s))
  unfolding exec exec_on coded code_after
  exec_on-coded (done a) s code e = refl
  exec_on-coded (set_header k v p) s code e = exec_on-coded p (w.set_header k v s) code e
  exec_on-coded (add_header k v p) s code e = exec_on-coded p (w.add_header k v s) code e
  exec_on-coded (write_header c p) s code e = exec_on-coded p (w.write_header c s) c e
  exec_on-coded (write bytes p) s code e =
      let (sent, s') = w.write bytes s in exec_on-coded (p sent) s' code e
  exec_on-coded (copy bytes p) s code e =
      let (sent, s') = copy_to w bytes s in
      rw (copy_to-coded bytes s code e) (exec_on-coded (p sent) s' code e)
  exec_on-coded (outside change p) s code e = exec_on-coded (p s) (change s) code e

-- On a writer without ReadFrom, a POST is answered as on the writer itself, and then the finalizer
-- runs with the context that is left and the last status code that was sent, 200 if none was.
pub serve_http_finalized :
    {W Ctx Raw F : Type 0} (lib : Library W Raw F) (keys : Keys Ctx F) (writer : ResponseWriter W)
    (s : Server W Ctx Raw F) (f : Ctx → ℕ → Raw → Act W (Unit {0})) (ctx : Ctx) (r : Raw) (x : W)
    → writer.read_from ≡ none
    → s.finalizer ≡ some f
    → lib.request_method r ≡ "POST"
    → serve_http lib keys writer s ctx r x ≡ (
        let (ctx', x') = exec writer (respond lib keys s ctx r) x in
        (f ctx' (code_after writer (respond lib keys s ctx r) status_ok x) r x').1)
unfolding serve_http exec code_after respond
serve_http_finalized lib keys writer s f ctx r x e h post =
    rw (post, h, exec_on-coded writer (respond lib keys s ctx r) x status_ok e)
