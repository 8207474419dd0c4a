-- ===== src/Examples/Lint.antt =====
-- The analyser at a concrete input: os.Exit in parentheses, inside of a block.
use svcmetrics.Base.{◌≡◌, ◌↔◌, false, none, some, [], ◌∷◌, if◌then◌else◌, ◌==◌}
use svcmetrics.Lint.{
  Node, ident, selector, paren, call, other, end, child, func_object, func_decl, Pass,
  run_no_os_exit,
}
use svcmetrics.Lint.Reports.{Listed, ExitInFiles, run_no_os_exit_iff}

abbrev body : Node
body = other (child (call 12 (paren (selector (ident 1) 2)) (child (ident 3) end)) end)

abbrev pass : Pass
pass = record {
  package_name = "main";
  files = record { is_generated = false; decls = func_decl false "main" (some body) ∷ [] } ∷ [];
  uses = λ id. if id == 2 then some (func_object (some "os") "Exit") else none;
}

run_no_os_exit_iff_example :
    Listed 12 (run_no_os_exit pass)
    ↔ ((pass.package_name ≡ "main") × ExitInFiles pass.uses 12 pass.files)
run_no_os_exit_iff_example = run_no_os_exit_iff pass 12
