-- ===== src/Cluster/Names/Laws.antt =====
-- The lengths of names, and names that are cut off.
use Prim.Native.String.{[], ◌∷◌, ◌++◌ as ◌<>◌}
use aibom_webhook_service.Base.{
  ℕ, zero, suc, Char, code, String, ◌≡◌, Bool, ◌+◌, ◌≤◌, arith, nat_eq, if◌then◌else◌, Bool-cases,
  inl, inr,
}
use aibom_webhook_service.Base.Text.{take_text, rstrip_by, text_length}
use aibom_webhook_service.Base.Text.Span.{nil-append, cons-append}
use aibom_webhook_service.Cluster.Names.{
  base_name, postprocess_job_name, postprocess_suffix, configmap_suffix, max_job_name_length,
}

text_length-append : (a b : String) → text_length (a <> b) ≡ text_length a + text_length b
text_length-append [] b = rw nil-append (omega arith)
text_length-append (c ∷ a) b = rw cons-append (omega (arith, text_length-append a b))

text_length-take_text : (n : ℕ) (s : String) → text_length (take_text n s) ≤ n
unfolding take_text
text_length-take_text zero s = omega arith
text_length-take_text (suc n) [] = omega arith
text_length-take_text (suc n) (c ∷ s) = omega (arith, text_length-take_text n s)

strip_cons :
    (p : ℕ → Bool) (c : Char) (s r : String)
    → text_length r ≤ text_length s
    → text_length (elim r [ [] ↦ if p (code c) then "" else c ∷ "" | d ∷ rest ↦ c ∷ d ∷ rest ])
      ≤ suc (text_length s)
strip_cons p c s [] h = elim (Bool-cases (p (code c))) [
  | inl e ↦ rw e (omega arith)
  | inr e ↦ rw e (omega arith)
]
strip_cons p c s (d ∷ r) h = omega (arith, h)

text_length-rstrip_by : (p : ℕ → Bool) (s : String) → text_length (rstrip_by p s) ≤ text_length s
unfolding rstrip_by
text_length-rstrip_by p [] = omega arith
text_length-rstrip_by p (c ∷ s) = strip_cons p c s (rstrip_by p s) (text_length-rstrip_by p s)

base_name_length : (trigger_name : String) → text_length (base_name trigger_name) ≤ 39
unfolding base_name
base_name_length trigger_name = omega (
  arith,
  text_length-take_text 39 trigger_name,
  text_length-rstrip_by (λ c. nat_eq c b'-') (take_text 39 trigger_name),
)

-- The names that are made of a trigger's fit into the 63 characters of a Kubernetes label, the
-- ConfigMap's with its suffix included, whatever the trigger is called.
pub postprocess_job_name_length :
    (trigger_name : String)
    → text_length (postprocess_job_name trigger_name <> configmap_suffix) ≤ max_job_name_length
unfolding postprocess_job_name
postprocess_job_name_length trigger_name =
    rw (text_length-append, text_length-append (base_name trigger_name) postprocess_suffix)
      (omega (arith, base_name_length trigger_name))
