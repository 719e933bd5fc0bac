-- ===== src/Runtime/ImportHook.antt =====
-- `_PostImportHookFinder` and `install_hooks_lazy`: the hooks of the frameworks run as soon as
-- their modules have executed. The other finders of `sys.meta_path` are a parameter; what a
-- module's body does shows as further steps while its call is open.
pub mod Laws
pub mod Fires
pub mod Imports
use aibom_webhook_service.Base.{
  ℕ, String, Bool, true, false, not, ◌&&◌, ◌||◌, ◌≡◌, Option, none, some, List, [], ◌∷◌, ◌++◌, ◌==◌,
  if◌then◌else◌, nat_eq, ltb, length, keep,
}
use aibom_webhook_service.Command.Segments.{one_of}

-- `exec_module` of a loader: its own, or a wrapper for a module around another one
pub data Exec : Type 0 where
  original : Exec
  wrapped : String → Exec → Exec

pub record Loader : Type 0 where
  pub id : ℕ
  -- `exec_module` is there, and can be set on the loader, which is no class
  pub can_wrap : Bool

-- A module spec. `loader` may be None.
pub record ModuleSpec : Type 0 where
  pub loader : Option Loader

-- a call of `exec_module` for a module that has not returned
pub record Call : Type 0 where
  pub loader : ℕ
  pub name : String
  pub exec : Exec

pub record Finder : Type 0 where
  -- the triggers whose hooks have not run
  pub pending : List String
  -- whether the finder is on `sys.meta_path`
  pub on_path : Bool
  pub exec : ℕ → Exec
  -- the hooks that ran, the last first
  pub fired : List String

abbrev pub is_empty : List String → Bool
is_empty [] = true
is_empty (n ∷ names) = false

abbrev pub without : String → List String → List String
without name names = keep (λ n. not (n == name)) names

-- `_claim` when the name is pending, and the hook that it gives is run
unfoldable pub claimed : String → Finder → Finder
claimed name s =
    let left = without name s.pending in
    record s { pending = left; on_path = not (is_empty left) && s.on_path; fired = name ∷ s.fired }

-- `fire`: a claim with nothing to run still takes the finder off the path if nothing is pending
unfoldable pub fire : String → Finder → Finder
unfolding claimed one_of
fire name s =
    if one_of s.pending name
    then claimed name s
    else record s { on_path = not (is_empty s.pending) && s.on_path }

abbrev pub set_exec : ℕ → Exec → Finder → Finder
set_exec id e s = record s { exec = λ i. if nat_eq i id then e else s.exec i }

-- `_wrap_loader`
unfoldable pub wrap_loader : Loader → String → Finder → Finder
wrap_loader loader fullname s =
    if loader.can_wrap then set_exec loader.id (wrapped fullname (s.exec loader.id)) s else s

-- the first spec that another finder gives
unfoldable pub first_spec : List (String → Option ModuleSpec) → String → Option ModuleSpec
first_spec [] fullname = none
first_spec (find ∷ finders) fullname =
    let rest = first_spec finders fullname in
    elim (find fullname) [ none ↦ rest | some spec ↦ some spec ]

abbrev pub wrap_spec : Option ModuleSpec → String → Finder → Finder
wrap_spec none fullname s = s
wrap_spec (some spec) fullname s = elim spec.loader [
  | none ↦ s
  | some loader ↦ wrap_loader loader fullname s
]

-- `find_spec`; `resolving` are the names that the thread is looking up
unfoldable pub find_spec :
    List (String → Option ModuleSpec) → List String → String → Finder → Option ModuleSpec × Finder
unfolding first_spec wrap_loader one_of
find_spec finders resolving fullname s =
    let spec = first_spec finders fullname in
    if not (one_of s.pending fullname) || one_of resolving fullname
    then (none, s)
    else (spec, wrap_spec spec fullname s)

-- the rest of a wrapper for `name`, when what it wraps has returned; `raised` says whether it raised
unfoldable pub unwrapped : String → Bool → Call → Finder → Finder
unfolding fire
unwrapped name raised call s =
    let restored = set_exec call.loader original s in
    if call.name == name then (if raised then restored else fire name restored) else s

-- the wrappers of a call, the inner one first
unfoldable pub returned : Exec → Bool → Call → Finder → Finder
unfolding unwrapped
returned original raised call s = s
returned (wrapped name e) raised call s = unwrapped name raised call (returned e raised call s)

-- a call returns
unfoldable pub exec_returns : Bool → Call → Finder → Finder
unfolding returned
exec_returns raised call s = returned call.exec raised call s

-- `exec_module` of a loader is called for a module
abbrev pub call_of : ℕ → String → Finder → Call
call_of loader name s = record { loader = loader; name = name; exec = s.exec loader }

-- the loop over the triggers that are imported already
unfoldable pub fire_all : List String → Finder → Finder
unfolding fire
fire_all [] s = s
fire_all (name ∷ names) s = fire_all names (fire name s)

-- `_LAZY_TRIGGERS`
abbrev pub lazy_triggers : List String
lazy_triggers = "torch" ∷ "datasets" ∷ "torchvision" ∷ "webdataset" ∷ "transformers" ∷ "peft" ∷ []

-- `install_hooks_lazy` where the modules that pass `imported` are imported already
unfoldable pub install_hooks_lazy : (String → Bool) → Finder
unfolding fire_all
install_hooks_lazy imported =
    let already = keep imported lazy_triggers in
    fire_all already (record {
      pending = lazy_triggers;
      on_path = ltb (length already) (length lazy_triggers);
      exec = λ i. original;
      fired = [];
    })

-- Any thread looks up a module, or a call of any thread returns.
pub data Step (finders : List (String → Option ModuleSpec)) : Finder → Finder → Type 0 where
  finds :
      (resolving : List String) (fullname : String) (s : Finder)
      → Step finders s (find_spec finders resolving fullname s).1
  returns : (raised : Bool) (call : Call) (s : Finder) → Step finders s (exec_returns raised call s)

pub data Reaches (finders : List (String → Option ModuleSpec)) (s : Finder) : Finder → Type 0 where
  here : Reaches finders s s
  then_step : {t u : Finder} → Reaches finders s t → Step finders t u → Reaches finders s u

-- Steps in which no call on this loader returns.
pub data QuietReaches (finders : List (String → Option ModuleSpec)) (loader : ℕ) (s : Finder)
    : Finder → Type 0 where
  quiet_here : QuietReaches finders loader s s
  quiet_finds :
      {t : Finder} (resolving : List String) (fullname : String)
      → QuietReaches finders loader s t
      → QuietReaches finders loader s (find_spec finders resolving fullname t).1
  quiet_returns :
      {t : Finder} (raised : Bool) (call : Call)
      → QuietReaches finders loader s t
      → nat_eq loader call.loader ≡ false
      → QuietReaches finders loader s (exec_returns raised call t)
