-- ===== src/Chat/Captcha.antt =====
-- Captchas: an answer counts once, only while it has not expired, and only if it is right.
use text.Mathlib.TextPositions.{eq_refl}
use lemmy.Prelude.{
  ℕ, suc, ◌<◌, ◌≡◌, refl, String, true, false, List, [], ◌∷◌, arith, any, Elem, here, there, str_eq,
  str_eq_iff, ltb, Bool-cases, inl, inr,
}
use lemmy.Chat.Server.{ChatServer, CaptchaItem}
use lemmy.Chat.Handlers.{check_captcha, retain_unexpired, answered, without_uuid}

-- What is left after a check has no item of the same identifier.
without_uuid-answered :
    (uuid answer : String) (clock : ℕ → ℕ) (i : ℕ) (items : List CaptchaItem)
    → any (answered uuid answer) (retain_unexpired clock i (without_uuid uuid items)) ≡ false
unfolding without_uuid retain_unexpired answered
without_uuid-answered uuid answer clock i [] = refl
without_uuid-answered uuid answer clock i (x ∷ xs) = elim (Bool-cases (str_eq x.uuid uuid)) [
  | inl e ↦ rw (e, without_uuid) (without_uuid-answered uuid answer clock i xs)
  | inr e ↦
      rw (e, without_uuid) (ground (arith, without_uuid-answered uuid answer clock (suc i) xs))
]

-- A captcha is good for one check, whatever that check says: the next one for the same identifier
-- fails, at any time and for any answer.
pub check_captcha_twice :
    (s : ChatServer) (now later : ℕ → ℕ) (uuid answer answer' : String)
    → (check_captcha (check_captcha s now uuid answer).0 later uuid answer').1 ≡ false
unfolding check_captcha
check_captcha_twice s now later uuid answer answer' =
    without_uuid-answered uuid answer' later 0 (retain_unexpired now 0 s.captchas)

-- What a successful check rests on.
abbrev pub IsGood : (ℕ → ℕ) → String → String → CaptchaItem → Type 0
IsGood clock uuid answer x =
    (x.uuid ≡ uuid) × (x.answer ≡ answer) × ((i : ℕ) × (clock i < x.expires))

answered-eq :
    (uuid answer : String) (x : CaptchaItem)
    → answered uuid answer x ≡ true
    → (x.uuid ≡ uuid) × (x.answer ≡ answer)
unfolding answered
answered-eq uuid answer x h = ground (arith, str_eq_iff x.uuid uuid, str_eq_iff x.answer answer)

answered-retain_unexpired :
    (uuid answer : String) (clock : ℕ → ℕ) (i : ℕ) (items : List CaptchaItem)
    → any (answered uuid answer) (retain_unexpired clock i items) ≡ true
    → (x : CaptchaItem) × Elem x items × IsGood clock uuid answer x
unfolding retain_unexpired
answered-retain_unexpired uuid answer clock i [] h = cc
answered-retain_unexpired uuid answer clock i (x ∷ xs) h =
    let rest = answered-retain_unexpired uuid answer clock (suc i) xs in
    elim (Bool-cases (ltb (clock i) x.expires)) [
      | inr old ↦ let (y, m, g) = rest (ground arith) in (y, there m, g)
      | inl fresh ↦ elim (Bool-cases (answered uuid answer x)) [
        | inl hit ↦
            let (e, e') = answered-eq uuid answer x hit in (x, here, (e, e', (i, ground arith)))
        | inr miss ↦ let (y, m, g) = rest (ground arith) in (y, there m, g)
      ]
    ]

retain_unexpired-answered :
    (clock : ℕ → ℕ) (x : CaptchaItem) (i : ℕ) {items : List CaptchaItem}
    → ((k : ℕ) → clock k < x.expires)
    → Elem x items
    → any (answered x.uuid x.answer) (retain_unexpired clock i items) ≡ true
unfolding retain_unexpired answered
retain_unexpired-answered clock x i fresh here =
    ground (arith, fresh i, eq_refl x.uuid, eq_refl x.answer)
retain_unexpired-answered clock x i fresh (there m) =
    ground (arith, retain_unexpired-answered clock x (suc i) fresh m)

-- A check passes only on an item that was there, with this identifier and this answer, and that had
-- not expired at some reading of the clock during the check.
pub check_captcha-IsGood :
    (s : ChatServer) (clock : ℕ → ℕ) (uuid answer : String)
    → (check_captcha s clock uuid answer).1 ≡ true
    → (x : CaptchaItem) × Elem x s.captchas × IsGood clock uuid answer x
unfolding check_captcha
check_captcha-IsGood s clock uuid answer h =
    answered-retain_unexpired uuid answer clock 0 s.captchas h

-- An item that is there passes with its own answer, as long as no reading of the clock reaches its
-- expiry.
pub check_captcha_passes :
    (s : ChatServer) (clock : ℕ → ℕ) (x : CaptchaItem)
    → Elem x s.captchas
    → ((i : ℕ) → clock i < x.expires)
    → (check_captcha s clock x.uuid x.answer).1 ≡ true
unfolding check_captcha
check_captcha_passes s clock x m fresh = retain_unexpired-answered clock x 0 fresh m
