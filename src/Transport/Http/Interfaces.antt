-- ===== src/Transport/Http/Interfaces.antt =====
-- transport/http/intercepting_writer.go: the optional interfaces of the writer that is handed on.

use kit_go.Prelude.{Bool, true, false, ◌||◌, List, [], ◌∷◌, ◌≡◌, arith}

pub data Interface : Type 0 where
  hijacker close_notifier pusher flusher reader_from : Interface

-- The interfaces of the struct that the switch over the five type assertions returns, one clause
-- for each case.
pub reimplement : Bool → Bool → Bool → Bool → Bool → List Interface
reimplement false false false false false = []
reimplement false false false false true = reader_from ∷ []
reimplement false false false true false = flusher ∷ []
reimplement false false false true true = flusher ∷ reader_from ∷ []
reimplement false false true false false = pusher ∷ []
reimplement false false true false true = pusher ∷ reader_from ∷ []
reimplement false false true true false = pusher ∷ flusher ∷ []
reimplement false false true true true = pusher ∷ flusher ∷ reader_from ∷ []
reimplement false true false false false = close_notifier ∷ []
reimplement false true false false true = close_notifier ∷ reader_from ∷ []
reimplement false true false true false = close_notifier ∷ flusher ∷ []
reimplement false true false true true = close_notifier ∷ flusher ∷ reader_from ∷ []
reimplement false true true false false = close_notifier ∷ pusher ∷ []
reimplement false true true false true = close_notifier ∷ pusher ∷ reader_from ∷ []
reimplement false true true true false = close_notifier ∷ pusher ∷ flusher ∷ []
reimplement false true true true true = close_notifier ∷ pusher ∷ flusher ∷ reader_from ∷ []
reimplement true false false false false = hijacker ∷ []
reimplement true false false false true = hijacker ∷ reader_from ∷ []
reimplement true false false true false = hijacker ∷ flusher ∷ []
reimplement true false false true true = hijacker ∷ flusher ∷ reader_from ∷ []
reimplement true false true false false = hijacker ∷ pusher ∷ []
reimplement true false true false true = hijacker ∷ pusher ∷ reader_from ∷ []
reimplement true false true true false = hijacker ∷ pusher ∷ flusher ∷ []
reimplement true false true true true = hijacker ∷ pusher ∷ flusher ∷ reader_from ∷ []
reimplement true true false false false = hijacker ∷ close_notifier ∷ []
reimplement true true false false true = hijacker ∷ close_notifier ∷ reader_from ∷ []
reimplement true true false true false = hijacker ∷ close_notifier ∷ flusher ∷ []
reimplement true true false true true = hijacker ∷ close_notifier ∷ flusher ∷ reader_from ∷ []
reimplement true true true false false = hijacker ∷ close_notifier ∷ pusher ∷ []
reimplement true true true false true = hijacker ∷ close_notifier ∷ pusher ∷ reader_from ∷ []
reimplement true true true true false = hijacker ∷ close_notifier ∷ pusher ∷ flusher ∷ []
reimplement true true true true true =
    hijacker ∷ close_notifier ∷ pusher ∷ flusher ∷ reader_from ∷ []

same : Interface → Interface → Bool
same hijacker hijacker = true
same close_notifier close_notifier = true
same pusher pusher = true
same flusher flusher = true
same reader_from reader_from = true
same _ _ = false

pub implements : List Interface → Interface → Bool
unfolding same
implements [] i = false
implements (j ∷ rest) i = same j i || implements rest i

-- Whether the underlying writer has an interface.
pub has : Bool → Bool → Bool → Bool → Bool → Interface → Bool
has i0 i1 i2 i3 i4 hijacker = i0
has i0 i1 i2 i3 i4 close_notifier = i1
has i0 i1 i2 i3 i4 pusher = i2
has i0 i1 i2 i3 i4 flusher = i3
has i0 i1 i2 i3 i4 reader_from = i4

-- The writer that is handed on implements an optional interface just if the underlying one does.
pub implements-reimplement :
    (i0 i1 i2 i3 i4 : Bool) (i : Interface)
    → implements (reimplement i0 i1 i2 i3 i4) i ≡ has i0 i1 i2 i3 i4 i
unfolding implements reimplement has
implements-reimplement i0 i1 i2 i3 i4 hijacker = ground arith
implements-reimplement i0 i1 i2 i3 i4 close_notifier = ground arith
implements-reimplement i0 i1 i2 i3 i4 pusher = ground arith
implements-reimplement i0 i1 i2 i3 i4 flusher = ground arith
implements-reimplement i0 i1 i2 i3 i4 reader_from = ground arith
