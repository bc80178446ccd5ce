-- ===== src/DbusActivation/Filter.antt =====
-- internal/dbusactivation/environment.go: what FilterEnvironment lets through.
use servicectl.Base.{
  ℕ, ◌+◌, ◌-◌, ◌*◌, ◌≤◌, ◌^◌, true, false, Option, none, some, List, [], ◌∷◌, length, ltb, ◌≡◌,
  refl, ap, ◌∙◌, subst, ◌==◌, ==_iff, Result, ok, >>=-eq-ok, if◌then◌else◌, if-intro, Map, get, put,
  get-put, All, arith,
}
use servicectl.Base.Text.{Text, text_eq}
use servicectl.DbusActivation.Environment.{
  Filtered, EnvironmentError, cut_equals, is_skipped, without_entry, add_variable, check_limits,
  filter_entry, filter_entries, filter_environment,
}

-- The size of the entries of an environment, each with its separator and its end.
unfoldable pub entries_size : Map Text Text → ℕ
entries_size [] = 0
entries_size ((key, value) ∷ rest) = (length key + length value + 2) + entries_size rest

-- The size of the entry of a key, 0 where there is none.
unfoldable pub old_size : Text → Option Text → ℕ
old_size key none = 0
old_size key (some old) = length key + length old + 2

entries_size-put :
    (m : Map Text Text) (key value : Text)
    → entries_size (put m key value) + old_size key (get m key)
      ≡ entries_size m + (length key + length value + 2)
unfolding entries_size old_size get put
entries_size-put [] key value = omega arith
entries_size-put ((j, w) ∷ m) key value = ground (arith, ==_iff j key, entries_size-put m key value)

length-put : (m : Map Text Text) (key value : Text) → length (put m key value) ≤ length m + 1
unfolding put
length-put [] key value = omega arith
length-put ((j, w) ∷ m) key value = ground (arith, length-put m key value)

old_size-le : (key : Text) (m : Map Text Text) → old_size key (get m key) ≤ entries_size m
unfolding entries_size old_size get
old_size-le key [] = omega arith
old_size-le key ((j, w) ∷ m) = ground (arith, ==_iff j key, old_size-le key m)

-- An entry that may stand in an environment for a service.
unfoldable pub Allowed : Text × Text → Type 0
Allowed (key, value) = (is_skipped key value ≡ false) × (length value ≤ 8 * 2 ^ 10)

All-put :
    (m : Map Text Text) (key value : Text)
    → Allowed (key, value)
    → All Allowed m
    → All Allowed (put m key value)
unfolding put
All-put [] key value good all = (good, tt)
All-put ((j, w) ∷ m) key value good all =
    if-intro (All Allowed) (j == key) (λ _. (good, all.1))
      (λ _. (all.0, All-put m key value good all.1))

-- The running total is the size of the entries, and all limits are kept.
pub record IsFiltered (f : Filtered) : Type 0 where
  pub counted : f.total ≡ entries_size f.values
  pub allowed : All Allowed f.values
  pub few : length f.values ≤ 256
  pub small : f.total ≤ 32 * 2 ^ 10

without_entry-old_size :
    (key : Text) (f : Filtered) → without_entry key f ≡ f.total - old_size key (get f.values key)
unfolding without_entry old_size
without_entry-old_size key f = ground arith

add_variable-counted :
    (key value : Text) (f : Filtered)
    → f.total ≡ entries_size f.values
    → (add_variable key value f).total ≡ entries_size (add_variable key value f).values
unfolding add_variable
add_variable-counted key value f same = omega (
  arith,
  without_entry-old_size key f,
  entries_size-put f.values key value,
  old_size-le key f.values,
)

check_limits-ok :
    (f g : Filtered)
    → check_limits f ≡ ok g
    → (f ≡ g) × (length f.values ≤ 256) × (f.total ≤ 32 * 2 ^ 10)
unfolding check_limits
check_limits-ok f g h = (ground arith, ground arith, ground arith)

Allowed-put :
    (name value : Text) (f : Filtered)
    → IsFiltered f
    → is_skipped name value ≡ false
    → length value ≤ 8 * 2 ^ 10
    → All Allowed (add_variable name value f).values
unfolding add_variable Allowed
Allowed-put name value f good keep short = All-put f.values name value (keep, short) good.allowed

get_added :
    (name value : Text) (f : Filtered) (key : Text)
    → get (add_variable name value f).values key
      ≡ (if name == key then some value else get f.values key)
unfolding add_variable
get_added name value f key = get-put f.values name key value

-- The value of a key after one more entry.
unfoldable pub assigned_by : Text → Option (Text × Text) → Option Text → Option Text
assigned_by key none last = last
assigned_by key (some (name, value)) last =
    if is_skipped name value then last else if name == key then some value else last

-- The value that the entries give a key at last, where they are read one by one.
unfoldable pub assigned : Text → List Text → Option Text → Option Text
assigned key [] last = last
assigned key (entry ∷ rest) last = assigned key rest (assigned_by key (cut_equals entry) last)

added_variable :
    (name value : Text) (f : Filtered)
    → IsFiltered f
    → is_skipped name value ≡ false
    → length value ≤ 8 * 2 ^ 10
    → length (add_variable name value f).values ≤ 256
    → (add_variable name value f).total ≤ 32 * 2 ^ 10
    → IsFiltered (add_variable name value f)
      × ((key : Text)
          → get (add_variable name value f).values key
            ≡ assigned_by key (some (name, value)) (get f.values key))
unfolding assigned_by
added_variable name value f good keep short few small = (
  record {
    counted = add_variable-counted name value f good.counted;
    allowed = Allowed-put name value f good keep short;
    few = few;
    small = small;
  },
  λ key. rw keep (get_added name value f key),
)

added :
    (name value : Text) (f g : Filtered)
    → IsFiltered f
    → is_skipped name value ≡ false
    → length value ≤ 8 * 2 ^ 10
    → check_limits (add_variable name value f) ≡ ok g
    → IsFiltered g
      × ((key : Text) → get g.values key ≡ assigned_by key (some (name, value)) (get f.values key))
added name value f g good keep short h =
    let (same, few, small) = check_limits-ok (add_variable name value f) g h in
    subst
      (λ g.
        IsFiltered g
        × ((key : Text)
            → get g.values key ≡ assigned_by key (some (name, value)) (get f.values key)))
      same (added_variable name value f good keep short few small)

skipped :
    (name value : Text) (f g : Filtered)
    → IsFiltered f
    → is_skipped name value ≡ true
    → f ≡ g
    → IsFiltered g
      × ((key : Text) → get g.values key ≡ assigned_by key (some (name, value)) (get f.values key))
unfolding assigned_by
skipped name value f g good skip same =
    subst
      (λ g.
        IsFiltered g
        × ((key : Text)
            → get g.values key ≡ assigned_by key (some (name, value)) (get f.values key)))
      same (good, λ key. rw skip refl)

filter_entry-IsFiltered :
    (pair : Option (Text × Text)) (f g : Filtered)
    → IsFiltered f
    → filter_entry pair f ≡ ok g
    → IsFiltered g × ((key : Text) → get g.values key ≡ assigned_by key pair (get f.values key))
unfolding filter_entry assigned_by
filter_entry-IsFiltered none f g good = λ h. (subst IsFiltered (cc) good, λ key. cc)
filter_entry-IsFiltered (some (name, value)) f g good =
    let Good : Result EnvironmentError Filtered → Type 0 = λ r.
      r ≡ ok g
      → IsFiltered g
        × ((key : Text)
            → get g.values key ≡ assigned_by key (some (name, value)) (get f.values key)) in
    if-intro Good (is_skipped name value) (λ skip h. skipped name value f g good skip (cc))
      (λ keep.
        if-intro Good (ltb (8 * 2 ^ 10) (length value)) (λ _ h. cc)
          (λ short h. added name value f g good keep (ground arith) h))

filter_entries-IsFiltered :
    (entries : List Text) (f g : Filtered)
    → IsFiltered f
    → filter_entries entries f ≡ ok g
    → IsFiltered g × ((key : Text) → get g.values key ≡ assigned key entries (get f.values key))
unfolding filter_entries assigned
filter_entries-IsFiltered [] f g good h = (subst IsFiltered (cc) good, λ key. cc)
filter_entries-IsFiltered (entry ∷ rest) f g good h =
    let (m, first, last) = >>=-eq-ok (filter_entry (cut_equals entry) f) (filter_entries rest) h in
    let (kept, one) = filter_entry-IsFiltered (cut_equals entry) f m good first in
    let (all, more) = filter_entries-IsFiltered rest m g kept last in
    (all, λ key. more key ∙ ap (assigned key rest) (one key))

nothing_filtered : IsFiltered (record { values = []; total = 0 })
unfolding entries_size
nothing_filtered = record { counted = refl; allowed = tt; few = omega arith; small = omega arith }

-- An environment that FilterEnvironment returns has at most 256 entries of at most 32 KiB in total,
-- each allowed: with a name that is not blocked and a value of at most 8 KiB; and each variable has
-- the value of its last entry that is not skipped.
pub filter_environment-IsFiltered :
    (entries : List Text) (values : Map Text Text)
    → filter_environment entries ≡ ok values
    → (length values ≤ 256)
      × (entries_size values ≤ 32 * 2 ^ 10)
      × All Allowed values
      × ((key : Text) → get values key ≡ assigned key entries none)
unfolding filter_environment get
filter_environment-IsFiltered entries values h =
    let (g, run, same) =
      >>=-eq-ok (filter_entries entries (record { values = []; total = 0 })) (λ f. ok f.values) h in
    let (good, last) = filter_entries-IsFiltered entries _ g nothing_filtered run in
    subst
      (λ vs.
        (length vs ≤ 256)
        × (entries_size vs ≤ 32 * 2 ^ 10)
        × All Allowed vs
        × ((key : Text) → get vs key ≡ assigned key entries none))
      (cc) (good.few, omega (arith, good.small, good.counted), good.allowed, last)
