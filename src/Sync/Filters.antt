-- ===== src/Sync/Filters.antt =====
-- What rsync makes of the filters on the command line. It goes down from the root, so that each directory on
-- the way to a file is an entry as the file is; of an entry, the first rule that matches it decides; and
-- nothing below an excluded directory is looked at.
use rust_build_server.Prelude.{
  ◌≡◌, refl, ap, ◌∙◌, arith, Bool, true, false, not, ◌&&◌, ◌||◌, List, [], ◌∷◌, ◌++◌, Option, none,
  some, if◌then◌else◌, any, Bytes, bytes_eq, codes, strip_prefix, Bool-cases, inl, inr,
}
use rust_build_server.Sync.{RsyncPlan, with_option, source, destination, argv}

-- `--include`, `--exclude`, and the merge of the `.gitignore` files, whose patterns exclude.
pub data Rule : Type 0 where
  include exclude : (pattern : Bytes) → Rule
  gitignore : Rule

-- The rule of an argument, if it is one.
unfoldable pub rule_of : Bytes → Option Rule
rule_of arg = elim (strip_prefix (codes "--include=") arg) [
  | some p ↦ some (include p)
  | none ↦ elim (strip_prefix (codes "--exclude=") arg) [
    | some p ↦ some (exclude p)
    | none ↦ if bytes_eq arg (codes "--filter=:- .gitignore") then some gitignore else none
  ]
]

plain_a : rule_of (codes "-a") ≡ none
unfolding rule_of strip_prefix bytes_eq
plain_a = refl

plain_delete : rule_of (codes "--delete") ≡ none
unfolding rule_of strip_prefix bytes_eq
plain_delete = refl

plain_mkpath : rule_of (codes "--mkpath") ≡ none
unfolding rule_of strip_prefix bytes_eq
plain_mkpath = refl

-- What an entry meets: the patterns that match it, and whether a `.gitignore` names it.
module _ (matches : (pattern : Bytes) → Bool) (ignored : Bool) where
  abbrev decide : Rule → Option Bool
  decide (include p) = if matches p then some true else none
  decide (exclude p) = if matches p then some false else none
  decide gitignore = if ignored then some false else none

  abbrev decided_by : Option Rule → Option Bool
  decided_by none = none
  decided_by (some r) = decide r

  abbrev first : Option Bool → Bool → Bool
  first none rest = rest
  first (some b) rest = b

  -- Whether no rule keeps the entry back; where none matches it, none does.
  unfoldable pub is_kept : List Bytes → Bool
  unfolding rule_of
  is_kept [] = true
  is_kept (arg ∷ args) = first (decided_by (rule_of arg)) (is_kept args)

  is_kept-include :
      (patterns rest : List Bytes)
      → is_kept (with_option (codes "--include=") patterns ++ rest)
        ≡ (if any matches patterns then true else is_kept rest)
  unfolding is_kept with_option strip_prefix
  is_kept-include [] rest = refl
  is_kept-include (p ∷ patterns) rest = elim (Bool-cases (matches p)) [
    | inl hit ↦ ground (arith, hit)
    | inr miss ↦ ground (arith, miss, is_kept-include patterns rest)
  ]

  is_kept-exclude :
      (patterns rest : List Bytes)
      → is_kept (with_option (codes "--exclude=") patterns ++ rest)
        ≡ (if any matches patterns then false else is_kept rest)
  unfolding is_kept with_option strip_prefix
  is_kept-exclude [] rest = refl
  is_kept-exclude (p ∷ patterns) rest = elim (Bool-cases (matches p)) [
    | inl hit ↦ ground (arith, hit)
    | inr miss ↦ ground (arith, miss, is_kept-exclude patterns rest)
  ]

  is_kept-plain :
      (arg : Bytes) → rule_of arg ≡ none → (args : List Bytes) → is_kept (arg ∷ args) ≡ is_kept args
  unfolding is_kept
  is_kept-plain arg plain args = rw plain refl

  abbrev ends : RsyncPlan → List Bytes
  ends p = source p ∷ destination p ∷ []

  abbrev excluded : RsyncPlan → List Bytes
  excluded p = with_option (codes "--exclude=") p.excludes ++ ends p

  abbrev filters : RsyncPlan → List Bytes
  filters p =
      codes "--filter=:- .gitignore"
      ∷ codes "--exclude=.git/"
      ∷ codes "--exclude=target/"
      ∷ excluded p

  is_kept-ends :
      (p : RsyncPlan)
      → rule_of (source p) ≡ none
      → rule_of (destination p) ≡ none
      → is_kept (ends p) ≡ true
  unfolding is_kept
  is_kept-ends p from to = rw (from, to) refl

  abbrev built_in : Bool
  built_in = ignored || (matches (codes ".git/") || matches (codes "target/"))

  first_refusal :
      (a b c : Bool) (rest : Bool)
      → first
          (if a then some false else none)
          (first (if b then some false else none) (first (if c then some false else none) rest))
        ≡ (if a || (b || c) then false else rest)
  first_refusal true b c rest = refl
  first_refusal false true c rest = refl
  first_refusal false false true rest = refl
  first_refusal false false false rest = refl

  is_kept-filters :
      (p : RsyncPlan) → is_kept (filters p) ≡ (if built_in then false else is_kept (excluded p))
  unfolding is_kept strip_prefix bytes_eq
  is_kept-filters p =
      first_refusal ignored (matches (codes ".git/")) (matches (codes "target/"))
        (is_kept (excluded p))

  is_kept-argv :
      (p : RsyncPlan)
      → rule_of p.rsync_path ≡ none
      → rule_of (source p) ≡ none
      → rule_of (destination p) ≡ none
      → is_kept (argv p) ≡ (
          if any matches p.force_include
          then true
          else (if built_in then false else (if any matches p.excludes then false else true)))
  unfolding argv
  is_kept-argv p program from to =
      is_kept-plain p.rsync_path program _
      ∙ is_kept-plain (codes "-a") (plain_a) _
      ∙ is_kept-plain (codes "--delete") (plain_delete) _
      ∙ is_kept-plain (codes "--mkpath") (plain_mkpath) _
      ∙ is_kept-include p.force_include (filters p)
      ∙ ap (λ b. if any matches p.force_include then true else b)
          (is_kept-filters p
            ∙ ap (λ b. if built_in then false else b)
                (is_kept-exclude p.excludes (ends p)
                  ∙ ap (λ b. if any matches p.excludes then false else b) (is_kept-ends p from to)))

verdict :
    (inc a b c ex : Bool)
    → (if inc then true else (if a || (b || c) then false else (if ex then false else true)))
      ≡ (inc || not (a || (b || (c || ex))))
verdict true a b c ex = refl
verdict false true b c ex = refl
verdict false false true c ex = refl
verdict false false false true ex = refl
verdict false false false false true = refl
verdict false false false false false = refl

-- A file or a directory, by what its path meets.
pub record Entry : Type 0 where
  pub matches : (pattern : Bytes) → Bool
  pub ignored : Bool

abbrev pub every : (Entry → Bool) → List Entry → Bool
every keeps [] = true
every keeps (e ∷ es) = keeps e && every keeps es

-- Whether the last of the entries is sent, where they go down to it from the root.
unfoldable pub is_sent : List Bytes → List Entry → Bool
is_sent args = every (λ e. is_kept e.matches e.ignored args)

-- What the plan means to keep: what a pattern of `force_include` matches, and what neither a `.gitignore`
-- names nor any of `.git/`, `target/` and the further excludes matches.
abbrev pub passes : RsyncPlan → Entry → Bool
passes p e =
    any e.matches p.force_include
    || not (
        e.ignored
        || (e.matches (codes ".git/") || (e.matches (codes "target/") || any e.matches p.excludes)))

every_same :
    (f g : Entry → Bool) (es : List Entry) → ((e : Entry) → f e ≡ g e) → every f es ≡ every g es
every_same f g [] h = refl
every_same f g (e ∷ es) h = rw (h e, every_same f g es h) refl

-- A file is sent exactly if, for it and for every directory from the root down to it, a pattern of
-- `force_include` matches, or no `.gitignore` names it and none of `.git/`, `target/` and the further
-- excludes matches; where neither the program nor the two roots read as a rule of rsync.
pub argv-is_sent :
    (p : RsyncPlan) (entries : List Entry)
    → rule_of p.rsync_path ≡ none
    → rule_of (source p) ≡ none
    → rule_of (destination p) ≡ none
    → is_sent (argv p) entries ≡ every (passes p) entries
unfolding is_sent
argv-is_sent p entries program from to = every_same _ (passes p) entries (λ e.
    is_kept-argv e.matches e.ignored p program from to
    ∙ verdict (any e.matches p.force_include) e.ignored (e.matches (codes ".git/"))
        (e.matches (codes "target/")) (any e.matches p.excludes))
