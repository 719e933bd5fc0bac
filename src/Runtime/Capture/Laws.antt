-- ===== src/Runtime/Capture/Laws.antt =====
-- What a capture of git provenance leaves in `runtime_info`.
use mathlib.Core.Path.{subst}
use aibom_webhook_service.Base.{
  String, Bool, true, ◌≡◌, refl, ap, ◌∙◌, Option, none, some, [], ◌∷◌, ◌==◌, if◌then◌else◌, arith,
  or_else,
}
use aibom_webhook_service.Base.Dict
use aibom_webhook_service.Base.Dict.{Dict}
use aibom_webhook_service.Base.Dict.Laws.{NodupKeys, insert-NodupKeys, lookup-update}
use aibom_webhook_service.Base.Text.{strip}
use aibom_webhook_service.Value.{Value, text, bool}
use aibom_webhook_service.Source.Container.{given}
use aibom_webhook_service.Source.Path.{join_path}
use aibom_webhook_service.Runtime.GitRefs.{git_common_dir, resolve_git_ref, is_sha}
use aibom_webhook_service.Runtime.GitRefs.Laws.{WhereSha, resolve_git_ref-WhereSha}
use aibom_webhook_service.Runtime.Capture.{
  World, head_branch, find_repo, git_remote_url, git_dirty, text_entry, flag_entry, checkout_info,
  captured_info, capture_git_provenance,
}

abbrev pub mapped : {A B : Type 0} → (A → B) → Option A → Option B
mapped f none = none
mapped f (some a) = some (f a)

text_entry-NodupKeys :
    (R : Type 0) (key : String) (o : Option String) → NodupKeys (text_entry {R = R} key o)
text_entry-NodupKeys R key none = tt
text_entry-NodupKeys R key (some s) = (unfold Dict.lookup in refl, tt)

flag_entry-NodupKeys :
    (R : Type 0) (key : String) (o : Option Bool) → NodupKeys (flag_entry {R = R} key o)
flag_entry-NodupKeys R key none = tt
flag_entry-NodupKeys R key (some b) = (unfold Dict.lookup in refl, tt)

module _ {R : Type 0} where
  update-NodupKeys : (d e : Dict (Value R)) → NodupKeys d → NodupKeys (Dict.update d e)
  unfolding Dict.update
  update-NodupKeys d [] u = u
  update-NodupKeys d ((k, v) ∷ e) u =
      update-NodupKeys (Dict.insert k v d) e (insert-NodupKeys k v d u)

  lookup-text_entry :
      (k key : String) (o : Option String)
      → Dict.lookup k (text_entry {R = R} key o) ≡ (if key == k then mapped text o else none)
  unfolding Dict.lookup
  lookup-text_entry k key none = ground arith
  lookup-text_entry k key (some s) = refl

  lookup-flag_entry :
      (k key : String) (o : Option Bool)
      → Dict.lookup k (flag_entry {R = R} key o) ≡ (if key == k then mapped bool o else none)
  unfolding Dict.lookup
  lookup-flag_entry k key none = ground arith
  lookup-flag_entry k key (some b) = refl

-- four dicts, one over the other
module _ {R : Type 0} (a b c d : Dict (Value R)) where
  over : Dict (Value R)
  over = Dict.update (Dict.update (Dict.update a b) c) d

  over-NodupKeys : NodupKeys a → NodupKeys over
  unfolding over
  over-NodupKeys u =
      update-NodupKeys (Dict.update (Dict.update a b) c) d
        (update-NodupKeys (Dict.update a b) c (update-NodupKeys a b u))

  lookup-over :
      (k : String)
      → NodupKeys b
      → NodupKeys c
      → NodupKeys d
      → Dict.lookup k over
        ≡ or_else
            (Dict.lookup k d)
            (or_else (Dict.lookup k c) (or_else (Dict.lookup k b) (Dict.lookup k a)))
  unfolding over
  lookup-over k u v w =
      lookup-update k (Dict.update (Dict.update a b) c) d w
      ∙ ap (or_else (Dict.lookup k d)) (
          lookup-update k (Dict.update a b) c v
          ∙ ap (or_else (Dict.lookup k c)) (lookup-update k a b u))

module _ {R : Type 0} (world : World) (check : Bool) where
  -- the four keys of a checkout, and any other one
  checkout_info-lookup :
      (worktree common head commit k : String)
      → let info : Dict (Value R) = checkout_info world check worktree common head commit in
        NodupKeys info
        × (Dict.lookup k info
            ≡ or_else
                (if "git_dirty" == k then mapped bool (git_dirty world check worktree) else none)
                (or_else
                  (if "git_repository" == k
                    then mapped text (given (git_remote_url world common))
                    else none)
                  (or_else
                    (if "git_branch" == k then mapped text (head_branch head) else none)
                    (if "git_commit" == k then some (text commit) else none))))
  unfolding checkout_info over
  checkout_info-lookup worktree common head commit k =
      let a : Dict (Value R) = ("git_commit", text commit) ∷ [] in
      let b : Dict (Value R) = text_entry "git_branch" (head_branch head) in
      let c : Dict (Value R) = text_entry "git_repository" (given (git_remote_url world common)) in
      let d : Dict (Value R) = flag_entry "git_dirty" (git_dirty world check worktree) in
      (
        over-NodupKeys a b c d (unfold Dict.lookup in refl, tt),
        lookup-over a b c d k (text_entry-NodupKeys R _ _) (text_entry-NodupKeys R _ _)
              (flag_entry-NodupKeys R _ _)
            ∙ rw
                (
                  lookup-text_entry k "git_branch" (head_branch head),
                  lookup-text_entry k "git_repository" (given (git_remote_url world common)),
                  lookup-flag_entry k "git_dirty" (git_dirty world check worktree),
                )
                (unfold Dict.lookup in refl),
      )

  -- A capture in a checkout whose HEAD is resolved records the commit, a full hash. The branch that
  -- HEAD names, the remote's URL and whether the tree is dirty are recorded where they are known;
  -- where they are not, what an earlier capture recorded of them stays beside the new commit.
  pub capture_git_provenance-lookup :
      (info : Dict (Value R)) (worktree git_dir content commit : String)
      → find_repo world ≡ some (worktree, git_dir)
      → world.files.content (join_path git_dir "HEAD") ≡ some content
      → resolve_git_ref world.files (git_common_dir world.files git_dir) (strip content)
        ≡ some commit
      → let after = capture_git_provenance world check info in
        let remote = git_remote_url world (git_common_dir world.files git_dir) in
        (is_sha commit ≡ true)
        × (Dict.lookup "git_commit" after ≡ some (text commit))
        × (Dict.lookup "git_branch" after
            ≡ or_else (mapped text (head_branch (strip content))) (Dict.lookup "git_branch" info))
        × (Dict.lookup "git_repository" after
            ≡ or_else (mapped text (given remote)) (Dict.lookup "git_repository" info))
        × (Dict.lookup "git_dirty" after
            ≡ or_else (mapped bool (git_dirty world check worktree)) (Dict.lookup "git_dirty" info))
  unfolding capture_git_provenance captured_info
  capture_git_provenance-lookup info worktree git_dir content commit h at_head resolved =
      let common = git_common_dir world.files git_dir in
      let head = strip content in
      let new : Dict (Value R) = checkout_info world check worktree common head commit in
      let captured : captured_info world check ≡ some new =
        rw (h, captured_info) (rw (at_head, captured_info) (rw (resolved, captured_info) refl)) in
      let after : capture_git_provenance world check info ≡ Dict.update info new =
        rw (captured, capture_git_provenance) refl in
      let at_key = λ (k : String).
        ap (Dict.lookup k) after
        ∙ lookup-update k info new (checkout_info-lookup worktree common head commit k).0
        ∙ ap (λ o. or_else o (Dict.lookup k info))
            (checkout_info-lookup worktree common head commit k).1 in
      (
        subst WhereSha resolved (resolve_git_ref-WhereSha world.files common head),
        at_key "git_commit",
        at_key "git_branch" ∙ last (mapped text (head_branch head)) (Dict.lookup "git_branch" info),
        at_key "git_repository"
            ∙ last (mapped text (given (git_remote_url world common)))
                (Dict.lookup "git_repository" info),
        at_key "git_dirty"
            ∙ last (mapped bool (git_dirty world check worktree)) (Dict.lookup "git_dirty" info),
      )
    where
      last : (a b : Option (Value R)) → or_else (or_else a none) b ≡ or_else a b
      last none b = refl
      last (some v) b = refl
