-- ===== src/Engine/Invocation/Laws.antt =====
-- Where the arguments that a detector takes stand in the script.
use aibom_webhook_service.Base.{
  ℕ, zero, suc, drop, ◌⊎◌, String, ◌≡◌, refl, ◌∙◌, ap, Option, none, some, List, [], ◌∷◌, ◌++◌,
  arith, Option-cases, inl, inr, All, false, not, Bool-cases, keep,
}
use mathlib.Core.Path.{subst}
use aibom_webhook_service.Command.Segments.{split_segments, is_package_install, invocation_segments}
use aibom_webhook_service.Command.Segments.Laws.{IsWord, IsCommand, split_segments_partition}
use aibom_webhook_service.Engine.Invocation.{
  Here, args_in, first_args, server_args, vllm_here, tgi_here, sglang_here, lmdeploy_here, trl_here,
}

-- the last token of a list, or the token before it
abbrev pub last_or : Option String → List String → Option String
last_or before [] = before
last_or before (tok ∷ toks) = last_or (some tok) toks

-- a place in a command where `here` finds these arguments
record Place (here : Here) (before : Option String) (seg args : List String) : Type 0 where
  front : List String
  tok : String
  rest : List String
  split : seg ≡ front ++ (tok ∷ rest)
  invoked : here (last_or before front) tok rest ≡ some args

args_in-Place :
    (here : Here) (before : Option String) (seg args : List String)
    → args_in here before seg ≡ some args
    → Place here before seg args
unfolding args_in
args_in-Place here before [] args e = absurd (cc)
args_in-Place here before (tok ∷ rest) args e = elim (Option-cases (here before tok rest)) [
  | inl absent ↦
      let p = args_in-Place here (some tok) rest args (rw absent at e) in
      record {
        front = tok ∷ p.front;
        tok = p.tok;
        rest = p.rest;
        split = ap (λ l. tok ∷ l) p.split;
        invoked = p.invoked;
      }
  | inr (found, q) ↦ record {
    front = [];
    tok = tok;
    rest = rest;
    split = refl;
    invoked = q ∙ rw q at e;
  }
]

-- a command of the script that is no package install, and the place in it
pub record Source (here : Here) (segs : List (List String)) (args : List String) : Type 0 where
  pub earlier : List (List String)
  pub later : List (List String)
  pub front : List String
  pub tok : String
  pub rest : List String
  pub split : segs ≡ earlier ++ ((front ++ (tok ∷ rest)) ∷ later)
  pub no_install : is_package_install (front ++ (tok ∷ rest)) ≡ false
  pub invoked : here (last_or none front) tok rest ≡ some args

pushed :
    (here : Here) (seg : List String) (segs : List (List String)) (args : List String)
    → Source here segs args
    → Source here (seg ∷ segs) args
pushed here seg segs args s = record {
  earlier = seg ∷ s.earlier;
  later = s.later;
  front = s.front;
  tok = s.tok;
  rest = s.rest;
  split = ap (λ l. seg ∷ l) s.split;
  no_install = s.no_install;
  invoked = s.invoked;
}

first_args-Source :
    (here : Here) (segs : List (List String)) (args : List String)
    → first_args here (keep (λ seg. not (is_package_install seg)) segs) ≡ some args
    → Source here segs args
unfolding first_args
first_args-Source here [] args e = absurd (cc)
first_args-Source here (seg ∷ segs) args e = elim (Bool-cases (is_package_install seg)) [
  | inl install ↦ pushed here seg segs args (first_args-Source here segs args (rw install at e))
  | inr run ↦ elim (Option-cases (args_in here none seg)) [
    | inl absent ↦
        pushed here seg segs args (first_args-Source here segs args (rw (run, absent) at e))
    | inr (found, q) ↦
        let p = args_in-Place here none seg args (q ∙ (rw (run, q) at e)) in
        record {
          earlier = [];
          later = segs;
          front = p.front;
          tok = p.tok;
          rest = p.rest;
          split = ap (λ l. l ∷ segs) p.split;
          no_install = rw (← p.split) run;
          invoked = p.invoked;
        }
  ]
]

-- The arguments that a detector takes are those that it reads at one token of one command of the
-- script, and that command is no package install.
pub server_args-Source :
    (here : Here) (tokens args : List String)
    → server_args here tokens ≡ some args
    → Source here (split_segments tokens) args
server_args-Source here tokens args e =
    first_args-Source here (split_segments tokens) args
      (unfold server_args invocation_segments in e)

-- the tools whose invocations are looked for
pub data Tool : Type 0 where
  vllm tgi sglang lmdeploy trl : Tool

abbrev pub here_of : Tool → Here
here_of vllm = vllm_here
here_of tgi = tgi_here
here_of sglang = sglang_here
here_of lmdeploy = lmdeploy_here
here_of trl = trl_here

-- what a tool takes is the rest of the command, or that less its first one or two tokens
here_of-drop :
    (t : Tool) (before : Option String) (tok : String) (rest args : List String)
    → here_of t before tok rest ≡ some args
    → (args ≡ rest) ⊎ (args ≡ drop 1 rest) ⊎ (args ≡ drop 2 rest)
unfolding vllm_here tgi_here sglang_here lmdeploy_here trl_here
here_of-drop vllm before tok rest args e = ground arith
here_of-drop tgi before tok rest args e = ground arith
here_of-drop sglang before tok rest args e = ground arith
here_of-drop lmdeploy before tok rest args e = ground arith
here_of-drop trl before tok rest args e = ground arith

All-drop : (n : ℕ) (P : String → Type 0) (l : List String) → All P l → All P (drop n l)
All-drop zero P l h = h
All-drop (suc n) P [] h = h
All-drop (suc n) P (x ∷ l) h = All-drop n P l h.1

All-behind :
    (P : String → Type 0) (front : List String) (tok : String) (rest : List String)
    → All P (front ++ (tok ∷ rest))
    → All P rest
All-behind P [] tok rest h = h.1
All-behind P (x ∷ front) tok rest h = All-behind P front tok rest h.1

All-middle :
    {A : Type 0} (P : A → Type 0) (earlier : List A) (seg : A) (later : List A)
    → All P (earlier ++ (seg ∷ later))
    → P seg
All-middle P [] seg later h = h.0
All-middle P (x ∷ earlier) seg later h = All-middle P earlier seg later h.1

-- A tool's arguments end with its command: none of them is a separator.
pub server_args-IsWord :
    (t : Tool) (tokens args : List String)
    → server_args (here_of t) tokens ≡ some args
    → All IsWord args
server_args-IsWord t tokens args e =
    let s = server_args-Source (here_of t) tokens args e in
    let commands = subst (All IsCommand) s.split (split_segments_partition tokens).1 in
    let words =
      All-behind IsWord s.front s.tok s.rest
        (All-middle IsCommand s.earlier _ s.later commands).1 in
    elim (here_of-drop t _ s.tok s.rest args s.invoked) [
      | inl q ↦ rw q words
      | inr (inl q) ↦ rw q (All-drop 1 IsWord s.rest words)
      | inr (inr q) ↦ rw q (All-drop 2 IsWord s.rest words)
    ]
