-- ===== src/Go/Strings/Base.antt =====
-- The last element of a path.
use Prim.Native.Char.{code}
use Prim.Native.String.append
use text.Mathlib.TextLemmas.{append-nil, append_assoc, append-eq-nil_iff}
use Prim.Native.String.{◌++◌ as concat}
use osc_bsu_csi_driver.Prelude.{
  ℕ, String, ◌≡◌, ◌≢◌, refl, sym, ap, ◌∙◌, Bool, false, arith, eq_iff, ◌==◌, if◌then◌else◌,
  Bool-cases, inl, inr,
}
use osc_bsu_csi_driver.Go.Strings.{base, after_slash, trim_right, is_slash}

-- No character is a slash.
unfoldable pub Slashless : String → Type 0
Slashless String.[] = Unit
Slashless (String.◌∷◌ c s) = (is_slash (code c) ≡ false) × Slashless s

pub Slashless-concat : (p s : String) → Slashless p → Slashless s → Slashless (concat p s)
unfolding Slashless
Slashless-concat String.[] s hp hs = rw (append.nil s) hs
Slashless-concat (String.◌∷◌ c p) s hp hs =
    rw (append.cons c p s) (hp.0, Slashless-concat p s hp.1 hs)

after_slash-Slashless : (part s : String) → Slashless s → after_slash part s ≡ concat part s
unfolding Slashless after_slash
after_slash-Slashless part String.[] h = sym (append-nil part)
after_slash-Slashless part (String.◌∷◌ c s) h = rw h.0 (
    after_slash-Slashless (concat part (String.◌∷◌ c "")) s h.1
    ∙ append_assoc part (String.◌∷◌ c "") s
    ∙ ap (λ (t : String). concat part t)
        (append.cons c "" s ∙ ap (λ (t : String). String.◌∷◌ c t) (append.nil s)))

after_slash-concat :
    (part p s : String) → after_slash part (concat p s) ≡ after_slash (after_slash part p) s
unfolding after_slash
after_slash-concat part String.[] s = rw (append.nil s)
after_slash-concat part (String.◌∷◌ c p) s =
    rw (append.cons c p s)
      (after_slash-concat (if is_slash (code c) then "" else concat part (String.◌∷◌ c "")) p s)

Slashless-after_slash : (part s : String) → Slashless part → Slashless (after_slash part s)
unfolding Slashless after_slash
Slashless-after_slash part String.[] h = h
Slashless-after_slash part (String.◌∷◌ c s) h = elim (Bool-cases (is_slash (code c))) [
  | inl slash ↦ rw slash (Slashless-after_slash "" s tt)
  | inr other ↦ rw other (
      Slashless-after_slash (concat part (String.◌∷◌ c "")) s
        (Slashless-concat part (String.◌∷◌ c "") h (other, tt)))
]

pub trim_right-concat :
    (drops : ℕ → Bool) (a b : String)
    → trim_right drops b ≡ b
    → b ≢ ""
    → trim_right drops (concat a b) ≡ concat a b
unfolding trim_right
trim_right-concat drops String.[] b kept full = rw (append.nil b) kept
trim_right-concat drops (String.◌∷◌ c a) b kept full =
    let later = trim_right-concat drops a b kept full in
    let some_left : (concat a b == "") ≡ false =
      ground (arith, eq_iff (concat a b) "", append-eq-nil_iff {p = a} {q = b}, full) in
    rw (append.cons c a b, later, some_left)

-- A name without slashes after a folder is the last element, if it does not end the path.
pub base-concat :
    (folder name : String)
    → after_slash "" folder ≡ ""
    → Slashless name
    → trim_right is_slash name ≡ name
    → name ≢ ""
    → base (concat folder name) ≡ name
unfolding base
base-concat folder name ends slashless kept full =
    let path : (concat folder name == "") ≡ false =
      ground
        (arith, eq_iff (concat folder name) "", append-eq-nil_iff {p = folder} {q = name}, full) in
    let last : after_slash "" (concat folder name) ≡ name =
      after_slash-concat "" folder name
      ∙ ap (λ (t : String). after_slash t name) ends
      ∙ after_slash-Slashless "" name slashless
      ∙ append.nil name in
    let named : (name == "") ≡ false = ground (arith, eq_iff name "", full) in
    rw (path, trim_right-concat is_slash folder name kept full, last, named)

-- Only the path of slashes has a last element with one.
pub base-Slashless : (path : String) → base path ≢ "/" → Slashless (base path)
unfolding base Slashless is_slash
base-Slashless path h = elim (Bool-cases (path == "")) [
  | inl empty ↦ rw empty (refl, tt)
  | inr full ↦ elim (Bool-cases (after_slash "" (trim_right is_slash path) == "")) [
    | inl slashes ↦ absurd (h (rw (full, slashes)))
    | inr named ↦ rw (full, named) (Slashless-after_slash "" (trim_right is_slash path) tt)
  ]
]
