-- ===== src/Platform.antt =====
-- What the program takes from its platform and does not implement: the Unicode tables behind
-- `str.isspace` (so `str.strip`) and `str.casefold`, the database's text collation, and the
-- rounding of its column type for amounts.
use trutina.Base.{
  ℕ, ◌+◌, ◌<◌, ◌≡◌, ◌≢◌, ◌⊎◌, Bool, true, false, ◌&&◌, ◌||◌, [], ◌∷◌, leb, if◌then◌else◌, Text, All,
  ℤ, Option, some,
}

-- `str.isspace` of an ASCII character: TAB to CR, FS to US, and the space.
abbrev pub ascii_space : ℕ → Bool
ascii_space c = (leb 9 c && leb c 13) || (leb 28 c && leb c 32)

abbrev pub ascii_upper : ℕ → Bool
ascii_upper c = leb 65 c && leb c 90

-- `str.casefold` of an ASCII character.
abbrev pub ascii_lower : ℕ → ℕ
ascii_lower c = if ascii_upper c then c + 32 else c

-- At least one character, and none of them white space.
abbrev pub IsVisible : (ℕ → Bool) → Text → Type 0
IsVisible is_space t = (t ≢ []) × All (λ d. is_space d ≡ false) t

pub record Platform : Type 0 where
  -- `chr(c).isspace()`
  pub is_space : ℕ → Bool
  -- `chr(c).casefold()`: full case folding, which may give several characters
  pub fold : ℕ → Text
  -- the order by which the database sorts and takes the minimum of text
  pub collate : Text → Text → Bool
  -- what a column Numeric(18, 2) keeps of an amount: none for one of too many digits, which it refuses
  pub to_numeric : ℤ → Option ℤ
  pub is_space_ascii : (c : ℕ) → c < 128 → is_space c ≡ ascii_space c
  pub fold_ascii : (c : ℕ) → c < 128 → fold c ≡ ascii_lower c ∷ []
  pub collate_total : (a b : Text) → (collate a b ≡ true) ⊎ (collate b a ≡ true)
  pub collate_trans : (a b c : Text) → collate a b ≡ true → collate b c ≡ true → collate a c ≡ true
  -- A stored amount is rounded already: stored again, it stays as it is.
  pub to_numeric_again :
      (amount stored : ℤ) → to_numeric amount ≡ some stored → to_numeric stored ≡ some stored
  -- Case folding keeps white space, gives no white space for another character, and is stable.
  pub fold_space : (c : ℕ) → is_space c ≡ true → fold c ≡ c ∷ []
  pub fold_visible : (c : ℕ) → is_space c ≡ false → IsVisible is_space (fold c)
  pub fold_fold : (c : ℕ) → All (λ d. fold d ≡ d ∷ []) (fold c)
