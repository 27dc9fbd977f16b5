-- ===== src/Context/System/Drained.antt =====
-- What becomes of a system whose thread, the loop of `processingFunc` in src/FileContext.cpp, has
-- come to the end of its queue.
use lamina_fs.Prelude.{
  ℕ, ◌<◌, ◌≤◌, ◌≡◌, ◌≢◌, refl, sym, ap, ◌∙◌, subst, Option, none, some, List, [], ◌∷◌, ◌++◌,
  append-nil, ◌==◌, arith, occurrences, Bool-cases, inl, inr, append_assoc,
}
use lamina_fs.WorkItem.{WorkItem}
use lamina_fs.Context.{FileContext}
use lamina_fs.Context.Turn.{queued}
use lamina_fs.Context.System.{System, hand_back, IsReachable}
use lamina_fs.Context.System.Invariant.{IsConsistent, occurrences-head}
use lamina_fs.Context.System.Told.{call_for, Tells, alone, not_again}
use lamina_fs.Context.System.Outcome.{outcome, outcome-nil, outcome-cons, outcome-same, Performed}

occurrences-hand_back :
    (o : Option ℕ) (p k : ℕ) (held : List ℕ)
    → occurrences k held ≤ occurrences k (hand_back o p held)
occurrences-hand_back none p k held = ground arith
occurrences-hand_back (some callback) p k held = omega arith

hand_back-held :
    (o : Option ℕ) (p : ℕ) (held : List ℕ) → o ≡ none → 0 < occurrences p (hand_back o p held)
hand_back-held o p held e = rw e (occurrences-head p held)

module _ {W : Type 0} where
  -- What a drained system has become.
  pub record Drains (s t : System W) : Type 0 where
    pub reachable : IsReachable t
    pub empty : queued t.ctx ≡ []
    pub pushed : t.pushed ≡ s.pushed
    pub pending : t.pending ≡ s.pending
    pub taken : t.taken ≡ s.taken ++ queued s.ctx
    pub kept : (p : ℕ) → occurrences p s.held ≤ occurrences p t.held
    pub returned :
        (p : ℕ)
        → 0 < occurrences p (queued s.ctx)
        → (s.ctx.items p).callback ≡ none
        → 0 < occurrences p t.held
    pub untouched : (p : ℕ) → occurrences p (queued s.ctx) ≡ 0 → t.ctx.items p ≡ s.ctx.items p
    pub results :
        (p : ℕ)
        → 0 < occurrences p (queued s.ctx)
        → (s.ctx.items p).callback ≡ none
        → Performed s.ctx.mounts (s.ctx.items p) (t.ctx.items p)
    pub made : List (ℕ × ℕ × WorkItem)
    pub performs :
        outcome s.ctx.mounts s.ctx.items (queued s.ctx) s.ctx.world ≡ some (made, t.ctx.world)
    pub calls : t.ctx.calls ≡ s.ctx.calls ++ made

  -- The system after a turn.
  abbrev pub after_turn : System W → ℕ → FileContext W → System W
  after_turn s p ctx = record s {
    ctx = ctx;
    held = hand_back (s.ctx.items p).callback p s.held;
    taken = s.taken ++ (p ∷ []);
  }

  module _ (s t : System W) (p : ℕ) (rest : List ℕ) (h : IsConsistent s)
      (e : queued s.ctx ≡ p ∷ rest) (tells : Tells s.ctx p rest)
      (d : Drains (after_turn s p tells.after) t) where
    still_queued :
        (q : ℕ) → 0 < occurrences q (queued s.ctx) → q ≢ p → 0 < occurrences q (queued tells.after)
    still_queued q lt other =
        ground (arith, ap (occurrences q) e, ap (occurrences q) tells.turns.queue)

    still_plain :
        (q : ℕ) → q ≢ p → (s.ctx.items q).callback ≡ none → (tells.after.items q).callback ≡ none
    still_plain q other plain =
        ap (λ (i : WorkItem). i.callback) (tells.turns.others q other) ∙ plain

    turn_returned :
        (q : ℕ)
        → 0 < occurrences q (queued s.ctx)
        → (s.ctx.items q).callback ≡ none
        → 0 < occurrences q t.held
    turn_returned q lt plain = elim (Bool-cases (p == q)) [
      | inl e' ↦
          let same : p ≡ q = ground arith in
          let at : (s.ctx.items p).callback ≡ none =
            ap (λ a. (s.ctx.items a).callback) same ∙ plain in
          let back = hand_back-held (s.ctx.items p).callback p s.held at in
          subst (λ a. 0 < occurrences a t.held) same (omega (arith, back, d.kept p))
      | inr e' ↦
          let other : q ≢ p = ground arith in
          d.returned q (still_queued q lt other) (still_plain q other plain)
    ]

    turn_untouched : (q : ℕ) → occurrences q (queued s.ctx) ≡ 0 → t.ctx.items q ≡ s.ctx.items q
    turn_untouched q none_queued =
        let other : q ≢ p =
          λ same. let here : p ≡ q = sym same in ground (arith, ap (occurrences q) e) in
        d.untouched q (ground (arith, ap (occurrences q) e, ap (occurrences q) tells.turns.queue))
        ∙ tells.turns.others q other

    turn_result :
        (s.ctx.items p).callback ≡ none → Performed s.ctx.mounts (s.ctx.items p) (t.ctx.items p)
    turn_result plain =
        let once : occurrences p (queued tells.after) ≡ 0 =
          omega (arith, ap (occurrences p) tells.turns.queue, not_again s p rest h e) in
        (
          tells.item,
          s.ctx.world,
          tells.after.world,
          tells.performs,
          d.untouched p once ∙ tells.leaves plain,
        )

    turn_results :
        (q : ℕ)
        → 0 < occurrences q (queued s.ctx)
        → (s.ctx.items q).callback ≡ none
        → Performed s.ctx.mounts (s.ctx.items q) (t.ctx.items q)
    turn_results q lt plain = elim (Bool-cases (p == q)) [
      | inl e' ↦
          let same : p ≡ q = ground arith in
          subst (λ a. Performed s.ctx.mounts (s.ctx.items a) (t.ctx.items a)) same
            (turn_result (ap (λ a. (s.ctx.items a).callback) same ∙ plain))
      | inr e' ↦
          let other : q ≢ p = ground arith in
          let before = d.results q (still_queued q lt other) (still_plain q other plain) in
          subst (λ ms. Performed ms (s.ctx.items q) (t.ctx.items q)) tells.turns.mounts
            (subst (λ i. Performed tells.after.mounts i (t.ctx.items q))
              (tells.turns.others q other) before)
    ]

    turn_performs :
        outcome s.ctx.mounts s.ctx.items (queued s.ctx) s.ctx.world
        ≡ some (
          call_for (s.ctx.items p).callback_user_data (s.ctx.items p).callback tells.item ++ d.made,
          t.ctx.world,
        )
    turn_performs =
        let ctx = tells.after in
        let takes = tells.turns in
        ap (λ ps. outcome s.ctx.mounts s.ctx.items ps s.ctx.world) e
        ∙ outcome-cons s.ctx.mounts s.ctx.items p rest s.ctx.world tells.item ctx.world d.made
            t.ctx.world tells.performs
            (sym (
                outcome-same s.ctx.mounts s.ctx.items ctx.items rest ctx.world
                  (λ q lt. takes.others q (alone s p rest h e q lt)))
              ∙ ap (λ ms. outcome ms ctx.items rest ctx.world) (sym takes.mounts)
              ∙ ap (λ ps. outcome ctx.mounts ctx.items ps ctx.world) (sym takes.queue)
              ∙ d.performs)

    pub turn-Drains : Drains s t
    turn-Drains = record {
      reachable = d.reachable;
      empty = d.empty;
      pushed = d.pushed;
      pending = d.pending;
      taken =
          d.taken
          ∙ append_assoc s.taken (p ∷ []) (queued tells.after)
          ∙ ap (λ xs. s.taken ++ (p ∷ xs)) tells.turns.queue
          ∙ ap (λ xs. s.taken ++ xs) (sym e);
      kept =
          λ k. omega (arith, occurrences-hand_back (s.ctx.items p).callback p k s.held, d.kept k);
      returned = turn_returned;
      untouched = turn_untouched;
      results = turn_results;
      made =
          call_for (s.ctx.items p).callback_user_data (s.ctx.items p).callback tells.item ++ d.made;
      performs = turn_performs;
      calls =
          d.calls
          ∙ ap (λ xs. xs ++ d.made) tells.calls
          ∙ append_assoc s.ctx.calls
              (call_for (s.ctx.items p).callback_user_data (s.ctx.items p).callback tells.item)
              d.made;
    }

  pub idle-Drains :
      (s : System W) (ctx : FileContext W)
      → queued s.ctx ≡ []
      → IsReachable (record s { ctx = ctx })
      → queued ctx ≡ []
      → ctx.calls ≡ s.ctx.calls
      → ctx.world ≡ s.ctx.world
      → ctx.items ≡ s.ctx.items
      → Drains s (record s { ctx = ctx })
  idle-Drains s ctx e reached empty same still left = record {
    reachable = reached;
    empty = empty;
    pushed = refl;
    pending = refl;
    taken = sym (append-nil s.taken) ∙ ap (λ xs. s.taken ++ xs) (sym e);
    kept = λ p. omega arith;
    returned = λ p lt. absurd (omega (arith, ap (occurrences p) e));
    untouched = λ p none_queued. ap (λ (items : ℕ → WorkItem). items p) left;
    results = λ p lt. absurd (omega (arith, ap (occurrences p) e));
    made = [];
    performs =
        ap (λ ps. outcome s.ctx.mounts s.ctx.items ps s.ctx.world) e
        ∙ outcome-nil s.ctx.mounts s.ctx.items s.ctx.world
        ∙ ap (λ w. some ([], w)) (sym still);
    calls = same ∙ sym (append-nil s.ctx.calls);
  }
