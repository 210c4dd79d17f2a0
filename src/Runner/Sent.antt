-- ===== src/Runner/Sent.antt =====
-- What the messages of the child tell of the engine's run.
use stock_invest_system.Prelude.{
  eq_of_some, subst, ℕ, ◌≡◌, refl, ap, sym, ◌∙◌, List, [], ◌∷◌, ◌++◌, Option, none, some,
  append_assoc, append-nil,
}
use stock_invest_system.Runner.Child.{
  Message, progress, ready, ended, failed, Pipe, Raised, Ran, ran, raised, EngineRun, Host,
  strategy_line, Limits, sent, try_send, send_reports, send_ran, send_result, send_all,
}
use stock_invest_system.Runner.Relay.{end_of, percents}
use stock_invest_system.Runner.Lines.{IsLineOf, strategy_line_lem}

module _ {R : Type 0} (send : Pipe R) where
  abbrev taken : ℕ → Option Raised → List ℕ → List ℕ
  taken pct none pcts = pct ∷ pcts
  taken pct (some e) pcts = pcts

  -- The reports that the pipe takes.
  abbrev pub accepted : List ℕ → List ℕ
  accepted [] = []
  accepted (pct ∷ pcts) = taken pct (send (progress pct)) (accepted pcts)

  -- The engine's exception, or that of the sending of the result with which it has ended.
  abbrev Why : Ran R → Raised → Type 0
  Why (raised y) x = y ≡ x
  Why (ran r) x = (l : Limits) × (send (ended r l) ≡ some x)

  -- An error is the engine's, or that of the sending of its result, with the line of its tracebacks.
  abbrev pub Blames : Ran R → ℕ → Option ℕ → Type 0
  Blames result e line = (x : Raised) × Why result x × (e ≡ x.error) × IsLineOf x.tracebacks line

  abbrev pub Tells : Ran R → Message R → Type 0
  Tells result (ended r l) = result ≡ ran r
  Tells result (failed e line l) = Blames result e line
  Tells result m = Unit

  end_of-ready :
      (b : Option ℕ) (o : Option Raised) (ms : List (Message R))
      → end_of (sent (ready b) o ++ ms) ≡ end_of ms
  end_of-ready b none ms = refl
  end_of-ready b (some e) ms = refl

  percents-ready :
      (b : Option ℕ) (o : Option Raised) (ms : List (Message R))
      → percents (sent (ready b) o ++ ms) ≡ percents ms
  percents-ready b none ms = refl
  percents-ready b (some e) ms = refl

  end_of-progress :
      (p : ℕ) (o : Option Raised) (ms : List (Message R))
      → end_of (sent (progress p) o ++ ms) ≡ end_of ms
  end_of-progress p none ms = refl
  end_of-progress p (some e) ms = refl

  percents-progress :
      (p : ℕ) (o : Option Raised) (ms : List (Message R))
      → percents (sent (progress p) o ++ ms) ≡ taken p o (percents ms)
  percents-progress p none ms = refl
  percents-progress p (some e) ms = refl

  end_of-send_reports :
      (ps : List ℕ) (ms : List (Message R)) → end_of (send_reports send ps ++ ms) ≡ end_of ms
  end_of-send_reports [] ms = refl
  end_of-send_reports (p ∷ ps) ms =
      ap end_of (append_assoc (try_send send (progress p)) (send_reports send ps) ms)
      ∙ (end_of-progress p (send (progress p)) (send_reports send ps ++ ms)
          ∙ end_of-send_reports ps ms)

  taken-append :
      (p : ℕ) (o : Option Raised) (ps qs : List ℕ) → taken p o (ps ++ qs) ≡ taken p o ps ++ qs
  taken-append p none ps qs = refl
  taken-append p (some e) ps qs = refl

  percents-send_reports :
      (ps : List ℕ) (ms : List (Message R))
      → percents (send_reports send ps ++ ms) ≡ accepted ps ++ percents ms
  percents-send_reports [] ms = refl
  percents-send_reports (p ∷ ps) ms =
      ap percents (append_assoc (try_send send (progress p)) (send_reports send ps) ms)
      ∙ (percents-progress p (send (progress p)) (send_reports send ps ++ ms)
          ∙ (ap (taken p (send (progress p))) (percents-send_reports ps ms)
              ∙ taken-append p (send (progress p)) (accepted ps) (percents ms)))

  percents-failed :
      (e : ℕ) (line : Option ℕ) (l : Limits) (o : Option Raised)
      → percents {R = R} (sent (failed e line l) o) ≡ []
  percents-failed e line l none = refl
  percents-failed e line l (some x) = refl

  percents-send_result :
      (l : Limits) (r : R) (o : Option Raised) → percents (send_result send l r o) ≡ []
  percents-send_result l r none = refl
  percents-send_result l r (some x) = percents-failed x.error _ l _

  percents-send_ran : (l : Limits) (result : Ran R) → percents (send_ran send l result) ≡ []
  percents-send_ran l (ran r) = percents-send_result l r (send (ended r l))
  percents-send_ran l (raised x) = percents-failed x.error _ l _

  failed-Tells :
      (l : Limits) (x : Raised) (result : Ran R) (o : Option Raised) (m : Message R)
      → Why result x
      → end_of (sent (failed x.error (strategy_line x.tracebacks) l) o) ≡ some m
      → Tells result m
  failed-Tells l x result none m why e =
      subst (Tells result) (eq_of_some e) (x, why, refl, strategy_line_lem x.tracebacks)
  failed-Tells l x result (some y) m why e = absurd (cc)

  send_result-Tells :
      (l : Limits) (r : R) (o : Option Raised) (m : Message R)
      → send (ended r l) ≡ o
      → end_of (send_result send l r o) ≡ some m
      → Tells (ran r) m
  send_result-Tells l r none m s e = subst (Tells (ran r)) (eq_of_some e) refl
  send_result-Tells l r (some x) m s e = failed-Tells l x (ran r) _ m (l, s) e

  send_ran-Tells :
      (l : Limits) (result : Ran R) (m : Message R)
      → end_of (send_ran send l result) ≡ some m
      → Tells result m
  send_ran-Tells l (ran r) m e = send_result-Tells l r (send (ended r l)) m refl e
  send_ran-Tells l (raised x) m e = failed-Tells l x (raised x) _ m refl e

  module _ (h : Host) (run : EngineRun R) where
    pub percents-send_all :
        (l : Limits) → percents (send_all h send run (some l)) ≡ accepted run.reports
    percents-send_all l =
        percents-ready h.rss (send (ready h.rss)) _
        ∙ (percents-send_reports run.reports (send_ran send l run.result)
            ∙ (ap (λ ps. accepted run.reports ++ ps) (percents-send_ran l run.result)
                ∙ append-nil (accepted run.reports)))

    pub end_of-send_all :
        (l : Limits) → end_of (send_all h send run (some l)) ≡ end_of (send_ran send l run.result)
    end_of-send_all l =
        end_of-ready h.rss (send (ready h.rss)) _
        ∙ end_of-send_reports run.reports (send_ran send l run.result)

    pub send_all-Tells :
        (o : Option Limits) (m : Message R)
        → end_of (send_all h send run o) ≡ some m
        → Tells run.result m × (percents (send_all h send run o) ≡ accepted run.reports)
    send_all-Tells none m e = absurd (cc)
    send_all-Tells (some l) m e =
        (send_ran-Tells l run.result m (sym (end_of-send_all l) ∙ e), percents-send_all l)

    pub send_all-prefix :
        (o : Option Limits)
        → (more : List ℕ) × (percents (send_all h send run o) ++ more ≡ accepted run.reports)
    send_all-prefix none = (accepted run.reports, refl)
    send_all-prefix (some l) = ([], append-nil _ ∙ percents-send_all l)
