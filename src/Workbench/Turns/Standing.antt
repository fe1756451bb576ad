-- ===== src/Workbench/Turns/Standing.antt =====
-- The buttons of the page, what is underway, and the program that the report is of.
use lcl_fastapi.Prelude.{
  ℕ, suc, Text, Bool, true, false, Option, none, some, ◌≡◌, refl, ◌⊎◌, inl, inr,
}
use lcl_fastapi.Workbench.{
  Program, Report, Evaluation, Page, program_of, show_evaluation, answer_evaluate,
  evaluate_answered,
}
use lcl_fastapi.Workbench.Api.{Answer, returned, thrown}
use lcl_fastapi.Workbench.Events.{restore_evaluation}

-- The program that a report is of.
abbrev pub reported : Option Report → Option Program
reported none = none
reported (some r) = some r.program

abbrev pub IsOfThePage : Page → Type 0
IsOfThePage p = (p.evaluate_disabled ≡ true) ⊎ (reported p.report ≡ some (program_of p))

-- The buttons, the program on the page and that of the report, and what is underway.
pub record Standing : Type 0 where
  pub evaluate_disabled : Bool
  pub program : Program
  pub reported : Option Program
  pub parse_disabled : Bool
  pub parsing : Option Program
  pub evaluating : ℕ

abbrev pub standing : Page → Standing
standing p = record {
  evaluate_disabled = p.evaluate_disabled;
  program = program_of p;
  reported = reported p.report;
  parse_disabled = p.parse_disabled;
  parsing = p.parsing;
  evaluating = p.evaluating;
}

-- Nothing is underway, and an enabled Evaluate is for the program on the page.
pub record IsIdle (s : Standing) : Type 0 where
  pub evaluate : (s.evaluate_disabled ≡ true) ⊎ (s.reported ≡ some s.program)
  pub nothing_parsing : (s.parse_disabled ≡ false) × (s.parsing ≡ none)
  pub nothing_evaluating : s.evaluating ≡ 0

abbrev pub IsCurrent : Page → Type 0
IsCurrent p = IsIdle (standing p)

pub disabled-IsIdle :
    (s : Standing) (program : Program) (reported : Option Program)
    → IsIdle s
    → IsIdle (record s { evaluate_disabled = true; program = program; reported = reported })
disabled-IsIdle s program reported h = record {
  evaluate = inl refl;
  nothing_parsing = h.nothing_parsing;
  nothing_evaluating = h.nothing_evaluating;
}

pub show_evaluation-IsCurrent :
    (m : Option Text) (e : Evaluation) (p : Page) → IsCurrent p → IsCurrent (show_evaluation m e p)
unfolding show_evaluation
show_evaluation-IsCurrent none e p h = h
show_evaluation-IsCurrent (some m) e p h = h

pub restore_evaluation-IsCurrent :
    (o : Option (Option Text × Evaluation)) (p : Page)
    → IsCurrent p
    → IsCurrent (restore_evaluation o p)
unfolding restore_evaluation
restore_evaluation-IsCurrent none p h = h
restore_evaluation-IsCurrent (some (m, e)) p h = show_evaluation-IsCurrent m e p h

report-answer_evaluate :
    (a : Answer Evaluation) (p : Page)
    → ((answer_evaluate a p).report ≡ p.report)
      × (program_of (answer_evaluate a p) ≡ program_of p)
      × ((answer_evaluate a p).parse_disabled ≡ p.parse_disabled)
      × ((answer_evaluate a p).parsing ≡ p.parsing)
unfolding answer_evaluate show_evaluation
report-answer_evaluate (returned none e) p = (refl, refl, refl, refl)
report-answer_evaluate (returned (some m) e) p = (refl, refl, refl, refl)
report-answer_evaluate (thrown m) p = (refl, refl, refl, refl)

pub evaluate_answered-IsCurrent :
    (a : Answer Evaluation) (n : ℕ) (p : Page)
    → reported p.report ≡ some (program_of p)
    → (p.parse_disabled ≡ false) × (p.parsing ≡ none)
    → n ≡ 0
    → IsCurrent (evaluate_answered (suc n) a p)
unfolding evaluate_answered
evaluate_answered-IsCurrent a n p current (enabled, idle) e =
    let (same_report, same_program, same_button, same_request) = report-answer_evaluate a p in
    record {
      evaluate = inr (rw (same_report, same_program) current);
      nothing_parsing = (rw same_button enabled, rw same_request idle);
      nothing_evaluating = e;
    }
