-- ===== src/Startup/Nodes.antt =====
-- src/edgebox.c: the LoRa nodes of the configuration file.
use mathlib.Core.List.{reverse_aux}
use edgebox.Prelude.{
  ℕ, ◌+◌, ◌<◌, ◌≡◌, ◌≢◌, refl, ap, ◌∙◌, Bool, some, List, [], ◌∷◌, ◌++◌, ◌==◌, ltb, length,
  if◌then◌else◌, arith, Bool-cases, inl, inr, ltb→lt, Option-cases, append_assoc,
}
use edgebox.Prelude.Text.{Text, codes}
use edgebox.Prelude.Run.{ok, defined, allocated, deref, bind-ok}
use edgebox.Startup.{
  Ini, Settings, emit, tokens_from, add_loras, read_config, log_file, lora_name_size,
}

-- No byte is a comma.
abbrev pub NoComma : Text → Type 0
NoComma [] = Unit {0}
NoComma (c ∷ s) = (c ≢ b',') × NoComma s

-- Names of nodes: not empty, and without a comma.
abbrev pub AllNames : List Text → Type 0
AllNames [] = Unit {0}
AllNames (p ∷ ps) = (p ≢ []) × NoComma p × AllNames ps

unfoldable pub without_commas : Text → Text
without_commas [] = []
without_commas (c ∷ s) = if c == b',' then without_commas s else c ∷ without_commas s

unfoldable pub joined : List Text → Text
joined [] = []
joined (p ∷ ps) = p ++ joined ps

emit-joined : (token : Text) (rest : List Text) → joined (emit token rest) ≡ token ++ joined rest
unfolding joined
emit-joined [] rest = refl
emit-joined (c ∷ cs) rest = refl

emit-AllNames :
    (token : Text) (rest : List Text) → NoComma token → AllNames rest → AllNames (emit token rest)
emit-AllNames [] rest h all = all
emit-AllNames (c ∷ cs) rest h all = ((λ e. cc e), h, all)

NoComma-snoc : (token : Text) (c : ℕ) → NoComma token → c ≢ b',' → NoComma (token ++ c ∷ [])
NoComma-snoc [] c h ne = (ne, tt)
NoComma-snoc (d ∷ token) c h ne = (h.0, NoComma-snoc token c h.1 ne)

tokens_from-AllNames : (s token : Text) → NoComma token → AllNames (tokens_from token s)
unfolding tokens_from
tokens_from-AllNames [] token h = emit-AllNames token [] h tt
tokens_from-AllNames (c ∷ s) token h = elim (Bool-cases (c == b',')) [
  | inl comma ↦ rw comma (emit-AllNames token _ h (tokens_from-AllNames s [] tt))
  | inr other ↦
      let ne : c ≢ b',' = ground arith in
      rw other (tokens_from-AllNames s (token ++ c ∷ []) (NoComma-snoc token c h ne))
]

tokens_from-joined : (s token : Text) → joined (tokens_from token s) ≡ token ++ without_commas s
unfolding tokens_from joined without_commas
tokens_from-joined [] token = emit-joined token []
tokens_from-joined (c ∷ s) token = elim (Bool-cases (c == b',')) [
  | inl comma ↦
      rw comma
        (emit-joined token (tokens_from [] s) ∙ ap (λ t. token ++ t) (tokens_from-joined s []))
  | inr other ↦
      rw other
        (tokens_from-joined s (token ++ c ∷ []) ∙ append_assoc token (c ∷ []) (without_commas s))
]

-- Each name fits its node.
abbrev pub AllFit : List Text → Type 0
AllFit [] = Unit {0}
AllFit (p ∷ ps) = (length p < lora_name_size) × AllFit ps

defined_lt : (a b : ℕ) {u : Unit {0}} → defined (ltb a b) ≡ ok u → a < b
defined_lt a b h = elim (Bool-cases (ltb a b)) [ inl lt ↦ ltb→lt a b lt | inr ge ↦ cc (rw ge at h) ]

add_loras-ok :
    (found : ℕ → Bool) (n : ℕ) (ps old new : List Text)
    → add_loras found n ps old ≡ ok new
    → (new ≡ reverse_aux ps old) × AllFit ps
unfolding add_loras
add_loras-ok found n [] old new h = (cc h, tt)
add_loras-ok found n (p ∷ ps) old new h =
    let (_, _, h₁) = bind-ok (allocated (found n)) _ h in
    let (_, fits, h₂) = bind-ok (defined (ltb (length p) lora_name_size)) _ h₁ in
    let (same, fit) = add_loras-ok found (n + 1) ps (p ∷ old) new h₂ in
    (same, (defined_lt _ _ fits, fit))

-- If `readConfig` comes to its end and the file lists LoRa nodes, the nodes of the list are, last one
-- first, names that are not empty, have no comma and fit a node, and that make up the text of the file
-- without its commas.
pub read_config-lora_list :
    (found : ℕ → Bool) (cwd : Text) (ini : Ini) (loranodes : Text) (settings : Settings)
    → ini.getstring (codes "lora:lora_node_list") ≡ some loranodes
    → read_config found cwd (some ini) ≡ ok settings
    → (names : List Text) × (settings.lora_list ≡ reverse_aux names [])
      × AllNames names
      × AllFit names
      × (joined names ≡ without_commas loranodes)
unfolding read_config
read_config-lora_list found cwd ini loranodes settings listed h =
    elim (Option-cases (ini.getstring (codes "mqtt:edgebox_product_key"))) [
      | inl missing ↦ cc (rw missing at h)
      | inr (key, has_key) ↦
          let (loras, added, h₁) =
            bind-ok (add_loras found 0 (tokens_from [] loranodes) []) _
              (rw (has_key, listed) at h) in
          let (path, _, h₂) =
            bind-ok (log_file cwd [] (ini.getstring (codes "logging:logfile"))) _ h₁ in
          let (level, _, h₃) = bind-ok (deref (ini.getstring (codes "logging:loglevel"))) _ h₂ in
          let (same, fit) = add_loras-ok found 0 (tokens_from [] loranodes) [] loras added in
          let kept : settings.lora_list ≡ loras = cc in
          (
            tokens_from [] loranodes,
            kept ∙ same,
            tokens_from-AllNames loranodes [] tt,
            fit,
            tokens_from-joined loranodes [],
          )
    ]
