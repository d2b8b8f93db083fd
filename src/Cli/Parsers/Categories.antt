-- ===== src/Cli/Parsers/Categories.antt =====
-- `_get_category` of account/parser.py resolves the names of the enum, and no others.
use trutina.Base.{
  ◌≡◌, refl, sym, ap, ◌∙◌, subst, Option, some, none, ◌↔◌, find, same, same→eq, find-some, arith,
  Text,
}
use trutina.Platform.{Platform}
use trutina.Rule.{strip}
use trutina.Core.Account.{AccountCategory}
use trutina.Cli.Parsers.{
  Console, parsed, category_name, categories, category_named, upper, category_or_bad, get_category,
}

category_named-category_name : (c : AccountCategory) → category_named (category_name c) ≡ some c
unfolding category_named category_name trutina.Base.Text-discrete
category_named-category_name AccountCategory.asset = refl
category_named-category_name AccountCategory.liability = refl
category_named-category_name AccountCategory.equity = refl
category_named-category_name AccountCategory.dividend = refl
category_named-category_name AccountCategory.revenue = refl
category_named-category_name AccountCategory.expense = refl
category_named-category_name AccountCategory.drawing = refl

module _ ⦃u : Platform⦄ ⦃k : Console⦄ where
  parsed-category :
      (t : Text) (found : Option AccountCategory) (c : AccountCategory)
      → category_or_bad t found ≡ parsed c
      → found ≡ some c
  parsed-category t none c h = ground arith
  parsed-category t (some d) c h = ground arith

  -- The category of a typed text is c exactly if the text, without the white space around it and in
  -- upper case, is the name of c.
  pub get_category-category_name :
      (category : Text) (c : AccountCategory)
      → get_category category ≡ parsed c ↔ upper (strip category) ≡ category_name c
  unfolding get_category category_named
  get_category-category_name category c = (
    (λ h. sym (
        same→eq (category_name c) (upper (strip category)) (
          find-some (λ d. same (category_name d) (upper (strip category))) categories c
            (parsed-category category (category_named (upper (strip category))) c h)))),
    λ h. rw h (ap (category_or_bad category) (category_named-category_name c)),
  )
