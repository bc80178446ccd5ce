-- ===== src/DbusActivation/Priority.antt =====
-- internal/dbusactivation/servicefile.go: a parsed file keeps the priority of its directory.
use servicectl.Base.{
  ℕ, ◌≡◌, refl, sym, ap, ◌∙◌, subst, ◌||◌, Option, none, some, List, [], ◌∷◌, ◌==◌, Result, ok, err,
  ◌>>=◌, >>=-eq-ok, if-intro, arith,
}
use servicectl.Base.Text.{Text, text, text_eq, trim_space, is_empty, has_prefix}
use servicectl.DbusActivation.Environment.{cut_equals}
use servicectl.DbusActivation.Routes.{ServiceDefinition}
use servicectl.DbusActivation.ServiceFile.{
  FileError, Parse, set_argv, set_key, set_pair, in_section, bracketed, parse_line, parse_lines,
  check_definition, parse_service_file, split_command_line, empty_definition,
}

-- A result, if there is one, has the priority.
unfoldable Has : ℕ → Result FileError Parse → Type 0
Has n (err e) = Unit
Has n (ok p) = p.definition.priority ≡ n

module _ (n : ℕ) (p : Parse) (h : p.definition.priority ≡ n) where
  set_argv-Has : (r : Result FileError (List Text)) → Has n (set_argv p r)
  unfolding set_argv Has
  set_argv-Has (err e) = tt
  set_argv-Has (ok argv) = h

  set_key-Has : (key value : Text) → Has n (set_key key value p)
  unfolding set_key Has
  set_key-Has key value =
      if-intro (Has n) (key == text "Name") (λ _. h)
        (λ _.
          if-intro (Has n) (key == text "Exec") (λ _. set_argv-Has (split_command_line value))
            (λ _.
              if-intro (Has n) (key == text "User") (λ _. h)
                (λ _. if-intro (Has n) (key == text "SystemdService") (λ _. h) (λ _. h))))

  set_pair-Has : (line : Text) (o : Option (Text × Text)) → Has n (set_pair line p o)
  unfolding set_pair Has
  set_pair-Has line none = tt
  set_pair-Has line (some (key, value)) = set_key-Has (trim_space key) (trim_space value)

  in_section-Has : (line : Text) (o : Option Text) → Has n (in_section line p o)
  unfolding in_section Has
  in_section-Has line (some name) = h
  in_section-Has line none =
      if-intro (Has n) (p.section == text "D-BUS Service")
        (λ _. set_pair-Has line (cut_equals line)) (λ _. h)

  parse_line-Has : (raw : Text) → Has n (parse_line raw p)
  unfolding parse_line Has
  parse_line-Has raw =
      let line = trim_space raw in
      if-intro (Has n) (is_empty line || has_prefix line (text "#") || has_prefix line (text ";"))
        (λ _. h) (λ _. in_section-Has line (bracketed line))

priority_of : Parse → ℕ
priority_of p = p.definition.priority

ok_injective : (p q : Parse) → ◌≡◌ {A = Result FileError Parse} (ok p) (ok q) → p ≡ q
ok_injective p q h = cc

Has-ok :
    (n : ℕ) (r : Result FileError Parse) (p : Parse)
    → Has n r
    → r ≡ ok p
    → p.definition.priority ≡ n
unfolding Has priority_of
Has-ok n (ok q) p h k = ap priority_of (sym (ok_injective q p k)) ∙ h
Has-ok n (err e) p h k = cc

parse_lines-priority :
    (n : ℕ) (lines : List Text) (p q : Parse)
    → p.definition.priority ≡ n
    → parse_lines lines p ≡ ok q
    → q.definition.priority ≡ n
unfolding parse_lines priority_of
parse_lines-priority n [] p q h k = ap priority_of (sym (ok_injective p q k)) ∙ h
parse_lines-priority n (line ∷ rest) p q h k =
    let (m, first, last) = >>=-eq-ok (parse_line line p) (parse_lines rest) k in
    parse_lines-priority n rest m q
      (Has-ok n (parse_line line p) m (parse_line-Has n p h line) first) last

check_definition-same :
    (p : Parse) (d : ServiceDefinition) → check_definition p ≡ ok d → p.definition ≡ d
unfolding check_definition
check_definition-same p d h = ground arith

pub parse_service_file-priority :
    (path : Text) (priority : ℕ) (lines : Result FileError (List Text)) (d : ServiceDefinition)
    → parse_service_file path priority lines ≡ ok d
    → d.priority ≡ priority
unfolding parse_service_file
parse_service_file-priority path priority lines d h =
    let start : Parse = record { section = []; definition = empty_definition path priority } in
    let (p, first, last) =
      >>=-eq-ok (lines >>= (λ all. parse_lines all start)) check_definition h in
    let (all, read, parsed) = >>=-eq-ok lines (λ all. parse_lines all start) first in
    subst (λ (d : ServiceDefinition). d.priority ≡ priority) (check_definition-same p d last)
      (parse_lines-priority priority all start p refl parsed)
