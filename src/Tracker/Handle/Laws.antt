-- ===== src/Tracker/Handle/Laws.antt =====
-- What createQueuedHandle of tracker/src/main.ts promises: calls arrive once and in order, and no
-- promise is lost or settled twice.
use mathlib.Core.List.{append_assoc, append-nil}
use mathlib.Core.Path.{ap₂}
use trace_ux.Base.{ℕ, ◌≡◌, refl, sym, ap, ◌∙◌, true, false, List, [], ◌∷◌, ◌++◌, arith, map, Str}
use trace_ux.Tracker.Handle.{
  Call, Delivery, call, claim, expand, stop_runtime, Handle, create_queued_handle, Op, calls,
  claims, expands, stops, fails, activates, apply, apply_all,
}

-- The calls among what the runtime was asked.
abbrev pub called : List Delivery → List Call
called [] = []
called (call c ∷ ds) = c ∷ called ds
called (claim n ∷ ds) = called ds
called (expand n s ∷ ds) = called ds
called (stop_runtime ∷ ds) = called ds

abbrev pub calls_of : List Op → List Call
calls_of [] = []
calls_of (calls c ∷ os) = c ∷ calls_of os
calls_of (claims n ∷ os) = calls_of os
calls_of (expands n s ∷ os) = calls_of os
calls_of (stops ∷ os) = calls_of os
calls_of (fails ∷ os) = calls_of os
calls_of (activates ∷ os) = calls_of os

-- The page only calls: nothing stops, fails or activates.
abbrev pub Uses : List Op → Type 0
Uses [] = Unit
Uses (calls c ∷ os) = Uses os
Uses (claims n ∷ os) = Uses os
Uses (expands n s ∷ os) = Uses os
Uses (stops ∷ os) = ⊥
Uses (fails ∷ os) = ⊥
Uses (activates ∷ os) = ⊥

called-append : (ds es : List Delivery) → called (ds ++ es) ≡ called ds ++ called es
called-append [] es = refl
called-append (call c ∷ ds) es = rw (called-append ds es)
called-append (claim n ∷ ds) es = called-append ds es
called-append (expand n s ∷ ds) es = called-append ds es
called-append (stop_runtime ∷ ds) es = called-append ds es

called-map_call : (cs : List Call) → called (map call cs) ≡ cs
called-map_call [] = refl
called-map_call (c ∷ cs) = rw (called-map_call cs)

called-map_claim : (ns : List ℕ) → called (map claim ns) ≡ []
called-map_claim [] = refl
called-map_claim (n ∷ ns) = called-map_claim ns

called-map_expand : (es : List (ℕ × Str)) → called (map (λ e. expand e.0 e.1) es) ≡ []
called-map_expand [] = refl
called-map_expand (e ∷ es) = called-map_expand es

ruleset called_laws =
    (called-append, called-map_call, called-map_claim, called-map_expand, append_assoc, append-nil)

-- What one use leaves of a handle that waits.
abbrev Waits : List Call → Handle → Handle → Type 0
Waits cs h g =
    (g.runtime ≡ false)
    × (g.failed ≡ false)
    × (g.pending ≡ h.pending ++ cs)
    × (g.delivered ≡ h.delivered)

apply-calls :
    (c : Call) (h : Handle)
    → h.runtime ≡ false
    → h.failed ≡ false
    → Waits (c ∷ []) h (apply (calls c) h)
unfolding apply
apply-calls c h r f = ground arith

apply-claims :
    (n : ℕ) (h : Handle) → h.runtime ≡ false → h.failed ≡ false → Waits [] h (apply (claims n) h)
unfolding apply
apply-claims n h r f = ground (arith, append-nil h.pending)

apply-expands :
    (n : ℕ) (s : Str) (h : Handle)
    → h.runtime ≡ false
    → h.failed ≡ false
    → Waits [] h (apply (expands n s) h)
unfolding apply
apply-expands n s h r f = ground (arith, append-nil h.pending)

Waits-trans :
    (cs ds : List Call) (h g k : Handle) → Waits cs h g → Waits ds g k → Waits (cs ++ ds) h k
Waits-trans cs ds h g k v w =
    (w.0, w.1, w.2 ∙ (ap (λ p. p ++ ds) v.2 ∙ append_assoc h.pending cs ds), w.3 ∙ v.3)

-- While the handle waits, a use keeps it waiting and adds its calls to the pending ones.
waiting :
    (os : List Op) (h : Handle)
    → Uses os
    → h.runtime ≡ false
    → h.failed ≡ false
    → Waits (calls_of os) h (apply_all os h)
unfolding apply_all
waiting [] h u r f = (r, f, sym (append-nil h.pending), refl)
waiting (calls c ∷ os) h u r f =
    let w = apply-calls c h r f in
    Waits-trans (c ∷ []) (calls_of os) h (apply (calls c) h) (apply_all os (apply (calls c) h)) w
      (waiting os (apply (calls c) h) u w.0 w.1)
waiting (claims n ∷ os) h u r f =
    let w = apply-claims n h r f in
    Waits-trans [] (calls_of os) h (apply (claims n) h) (apply_all os (apply (claims n) h)) w
      (waiting os (apply (claims n) h) u w.0 w.1)
waiting (expands n s ∷ os) h u r f =
    let w = apply-expands n s h r f in
    Waits-trans [] (calls_of os) h (apply (expands n s) h) (apply_all os (apply (expands n s) h)) w
      (waiting os (apply (expands n s) h) u w.0 w.1)
waiting (stops ∷ os) h u r f = absurd u
waiting (fails ∷ os) h u r f = absurd u
waiting (activates ∷ os) h u r f = absurd u

run-calls :
    (c : Call) (h : Handle)
    → h.runtime ≡ true
    → ((apply (calls c) h).runtime ≡ true)
      × (called (apply (calls c) h).delivered ≡ called h.delivered ++ c ∷ [])
unfolding apply
run-calls c h r = ground (arith, called-append h.delivered (call c ∷ []))

run-claims :
    (n : ℕ) (h : Handle)
    → h.runtime ≡ true
    → ((apply (claims n) h).runtime ≡ true)
      × (called (apply (claims n) h).delivered ≡ called h.delivered)
unfolding apply
run-claims n h r =
    ground (arith, called-append h.delivered (claim n ∷ []), append-nil (called h.delivered))

run-expands :
    (n : ℕ) (s : Str) (h : Handle)
    → h.runtime ≡ true
    → ((apply (expands n s) h).runtime ≡ true)
      × (called (apply (expands n s) h).delivered ≡ called h.delivered)
unfolding apply
run-expands n s h r =
    ground (arith, called-append h.delivered (expand n s ∷ []), append-nil (called h.delivered))

-- Once it runs, each call is passed on as it is made.
running :
    (os : List Op) (h : Handle)
    → Uses os
    → h.runtime ≡ true
    → called (apply_all os h).delivered ≡ called h.delivered ++ calls_of os
unfolding apply_all
running [] h u r = sym (append-nil _)
running (calls c ∷ os) h u r =
    let (r', e) = run-calls c h r in
    running os (apply (calls c) h) u r'
    ∙ (ap (λ p. p ++ calls_of os) e ∙ append_assoc (called h.delivered) (c ∷ []) (calls_of os))
running (claims n ∷ os) h u r =
    let (r', e) = run-claims n h r in
    running os (apply (claims n) h) u r' ∙ ap (λ p. p ++ calls_of os) e
running (expands n s ∷ os) h u r =
    let (r', e) = run-expands n s h r in
    running os (apply (expands n s) h) u r' ∙ ap (λ p. p ++ calls_of os) e
running (stops ∷ os) h u r = absurd u
running (fails ∷ os) h u r = absurd u
running (activates ∷ os) h u r = absurd u

activate_waiting :
    (h : Handle)
    → h.failed ≡ false
    → ((apply activates h).runtime ≡ true)
      × (called (apply activates h).delivered ≡ called h.delivered ++ h.pending)
unfolding apply
activate_waiting h f = rw f (refl, simp called_laws)

calls_of-append : (os ps : List Op) → calls_of (os ++ ps) ≡ calls_of os ++ calls_of ps
calls_of-append [] ps = refl
calls_of-append (calls c ∷ os) ps = ap (◌∷◌ c) (calls_of-append os ps)
calls_of-append (claims n ∷ os) ps = calls_of-append os ps
calls_of-append (expands n s ∷ os) ps = calls_of-append os ps
calls_of-append (stops ∷ os) ps = calls_of-append os ps
calls_of-append (fails ∷ os) ps = calls_of-append os ps
calls_of-append (activates ∷ os) ps = calls_of-append os ps

-- Whatever the page calls before the tracker runs and after, in whatever order and mixed with
-- claims and expands: the runtime gets each call once, in the order in which the page made them.
pub calls_arrive :
    (before after : List Op)
    → Uses before
    → Uses after
    → called (apply_all after (apply activates (apply_all before create_queued_handle))).delivered
      ≡ calls_of (before ++ after)
unfolding create_queued_handle
calls_arrive before after u v =
    let w = waiting before create_queued_handle u refl refl in
    let (r, e) = activate_waiting (apply_all before create_queued_handle) w.1 in
    running after _ v r
    ∙ (ap (λ p. p ++ calls_of after) (e ∙ ap₂ (λ ds p. called ds ++ p) w.3 w.2)
        ∙ sym (calls_of-append before after))
