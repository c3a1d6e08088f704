-- ===== src/Main/Module/Names.antt =====
-- The children of a module: their names stay distinct, and a refused child stays as it was.
use cpp_tbox.Common.{ℕ, ◌≡◌, refl, ◌∙◌, Bool, true, false, List, [], ◌∷◌, arith}
use cpp_tbox.Main.Module.{
  fresh, inited, running, is_fresh, Module, node, Items, nil, item, state_of, kids_of, name_of,
  same_name, has_name, emplace_back, add, add_as,
}

unfoldable pub NamesDistinct : Items → Type 0
NamesDistinct nil = Unit {0}
NamesDistinct (item m r rest) = (has_name (name_of m) rest ≡ false) × NamesDistinct rest

same_name_comm : (xs ys : List ℕ) → same_name xs ys ≡ same_name ys xs
unfolding same_name
same_name_comm [] [] = refl
same_name_comm [] (y ∷ ys) = refl
same_name_comm (x ∷ xs) [] = refl
same_name_comm (x ∷ xs) (y ∷ ys) = rw (same_name_comm xs ys) (ground arith)

has_name-emplace_back :
    (name : List ℕ) (kids : Items) (m : Module) (r : Bool)
    → has_name name kids ≡ false
    → same_name (name_of m) name ≡ false
    → has_name name (emplace_back kids m r) ≡ false
unfolding has_name emplace_back
has_name-emplace_back name nil m r h e = rw e refl
has_name-emplace_back name (item x q rest) m r h e =
    ground (arith, has_name-emplace_back name rest m r)

emplace_back-NamesDistinct :
    (kids : Items) (m : Module) (r : Bool)
    → NamesDistinct kids
    → has_name (name_of m) kids ≡ false
    → NamesDistinct (emplace_back kids m r)
unfolding NamesDistinct has_name emplace_back
emplace_back-NamesDistinct nil m r d h = (refl, tt)
emplace_back-NamesDistinct (item x q rest) m r d h = (
  has_name-emplace_back (name_of x) rest m r d.0
      (same_name_comm (name_of m) (name_of x) ∙ ground arith),
  emplace_back-NamesDistinct rest m r d.1 (ground arith),
)

-- However addAs ends, the names of the children stay distinct; where it is refused, the parent and
-- the child, its name included, are as before; where it is accepted the parent was fresh and the
-- child has the new name.
pub add_as_lem :
    (child : Module) (name : List ℕ) (required : Bool) (m : Module)
    → NamesDistinct (kids_of m)
    → let (ok, child', m') = add_as child name required m in
      NamesDistinct (kids_of m')
      × (ok ≡ false → (child' ≡ child) × (m' ≡ m))
      × (ok ≡ true → (state_of m ≡ fresh) × (name_of child' ≡ name))
unfolding add_as add kids_of state_of name_of is_fresh
add_as_lem (node i own q s grand) name required (node id n p fresh kids) d =
    ground (arith, emplace_back-NamesDistinct kids (node i name true s grand) required)
add_as_lem (node i own q s grand) name required (node id n p inited kids) d =
    (d, λ _. (refl, refl), λ e. absurd (cc))
add_as_lem (node i own q s grand) name required (node id n p running kids) d =
    (d, λ _. (refl, refl), λ e. absurd (cc))
