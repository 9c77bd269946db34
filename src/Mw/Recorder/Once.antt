-- ===== src/Mw/Recorder/Once.antt =====
-- The status line that the Writer of core/mw/mw.go lets through.
use howl_go.Prelude.{ℕ, ◌≡◌, refl, ap, Bool, true, false, List, [], ◌∷◌, ◌++◌, All}
use howl_go.Mw.Recorder.{
  Call, header, body, flushed, Writer, status_ok, wrap, write_header, write, flush, Operation,
  set_status, send, push, perform, perform_all,
}

-- The call sends no status line.
abbrev pub Plain : Call → Type 0
Plain (header _) = ⊥
Plain _ = Unit

-- Nothing is sent, or the recorded status first and no other status line after it.
abbrev pub Sent : Bool → List Call → ℕ → Type 0
Sent false calls status = (calls ≡ []) × (status ≡ status_ok)
Sent true calls status = (rest : List Call) × (calls ≡ header status ∷ rest) × All Plain rest

All-snoc : (cs : List Call) (c : Call) → All Plain cs → Plain c → All Plain (cs ++ c ∷ [])
All-snoc [] c h k = (k, tt)
All-snoc (d ∷ cs) c h k = (h.0, All-snoc cs c h.1 k)

Sent-add :
    (c : Call) (calls : List Call) (status : ℕ)
    → Plain c
    → Sent true calls status
    → Sent true (calls ++ c ∷ []) status
Sent-add c calls status k (rest, e, h) =
    (rest ++ c ∷ [], ap (λ l. l ++ c ∷ []) e, All-snoc rest c h k)

abbrev IsSent : Writer → Type 0
IsSent w = Sent w.wrote w.below w.status

fields_Sent :
    (o : Operation) (calls : List Call) (status bytes : ℕ) (wrote : Bool)
    → Sent wrote calls status
    → IsSent (perform o (record { below = calls; status = status; bytes = bytes; wrote = wrote }))
unfolding write_header write flush
fields_Sent (set_status code) l s n true h = h
fields_Sent (set_status code) l s n false h = ([], ap (λ cs. cs ++ header code ∷ []) h.0, tt)
fields_Sent (send b k) l s n true h = Sent-add (body b) l s tt h
fields_Sent (send b k) l s n false h =
    (body b ∷ [], ap (λ cs. (cs ++ header status_ok ∷ []) ++ body b ∷ []) h.0, (tt, tt))
fields_Sent push l s n true h = Sent-add flushed l s tt h
fields_Sent push l s n false h =
    (flushed ∷ [], ap (λ cs. (cs ++ header status_ok ∷ []) ++ flushed ∷ []) h.0, (tt, tt))

perform-Sent : (o : Operation) (w : Writer) → IsSent w → IsSent (perform o w)
perform-Sent o w h = fields_Sent o w.below w.status w.bytes w.wrote h

perform_all-Sent : (os : List Operation) (w : Writer) → IsSent w → IsSent (perform_all os w)
perform_all-Sent [] w h = h
perform_all-Sent (o ∷ os) w h = perform_all-Sent os (perform o w) (perform-Sent o w h)

-- Whatever a handler calls, in whatever order, the writer below a fresh Writer gets nothing, or one
-- status line, before everything else, with the status that the Writer records.
pub one_status_line :
    (os : List Operation)
    → let w : Writer = perform_all os (wrap []) in Sent w.wrote w.below w.status
unfolding wrap
one_status_line os = perform_all-Sent os (wrap []) (refl, refl)
