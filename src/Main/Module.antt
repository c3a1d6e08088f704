-- ===== src/Main/Module.antt =====
-- modules/main/module.cpp and module.h: modules that hold modules, and what starts and stops them.
-- The overridden onInit and onStart are parameters: whether a call succeeds may depend on the module
-- and on all calls made before. The log lists the calls of the four hooks in order. JSON is a parameter as well.
-- A name is the bytes of a string. A child is owned by its parent, so the tree holds its children.
mod Tests
pub mod Life
pub mod Names
use Prim.Native.Nat.{max}
use cpp_tbox.Common.{
  ℕ, zero, suc, ◌+◌, Bool, true, false, ◌&&◌, ◌||◌, not, List, [], ◌∷◌, ◌++◌, Option, none, some,
  ◌==◌, if◌then◌else◌,
}

pub data State : Type 0 where
  fresh : State
  inited : State
  running : State

-- The state is tested against one of the others.
pub is_fresh : State → Bool
is_fresh fresh = true
is_fresh _ = false

pub is_inited : State → Bool
is_inited inited = true
is_inited _ = false

pub is_running : State → Bool
is_running running = true
is_running _ = false

-- An item is a child, whether it is required, and the items after it.
mutual
  pub data Module : Type 0 where
    node : (id : ℕ) → (name : List ℕ) → (has_parent : Bool) → (state : State) → Items → Module

  pub data Items : Type 0 where
    nil : Items
    item : Module → (required : Bool) → Items → Items

pub data Event : Type 0 where
  init : ℕ → Event
  start : ℕ → Event
  stop : ℕ → Event
  clean : ℕ → Event

abbrev pub make : ℕ → List ℕ → Module
make id name = node id name false fresh nil

pub same_name : List ℕ → List ℕ → Bool
same_name [] [] = true
same_name [] (y ∷ ys) = false
same_name (x ∷ xs) [] = false
same_name (x ∷ xs) (y ∷ ys) = (x == y) && same_name xs ys

pub name_of : Module → List ℕ
name_of (node id name p st kids) = name

pub has_name : List ℕ → Items → Bool
has_name name nil = false
has_name name (item m r rest) = same_name (name_of m) name || has_name name rest

pub emplace_back : Items → Module → Bool → Items
emplace_back nil m r = item m r nil
emplace_back (item x q rest) m r = item x q (emplace_back rest m r)

-- `add`: the parent and the child after the call; `child == nullptr` is left out.
pub add : Module → Bool → Module → Bool × Module
add (node i name q s grand) required (node id own p st kids) =
    if not (is_fresh st)
    then (false, node id own p st kids)
    else if q
    then (false, node id own p st kids)
    else if has_name name kids
    then (false, node id own p st kids)
    else (true, node id own p st (emplace_back kids (node i name true s grand) required))

-- `addAs`: the child goes by the new name when it is added, and else keeps its own.
pub add_as : Module → List ℕ → Bool → Module → Bool × Module × Module
add_as (node i own q s grand) name required m =
    let (ok, m') = add (node i name q s grand) required m in
    if ok then (true, node i name true s grand, m') else (false, node i own q s grand, m')

pub empty : List ℕ → Bool
empty [] = true
empty (_ ∷ _) = false

pub state_of : Module → State
state_of (node id name p st kids) = st

pub kids_of : Module → Items
kids_of (node id name p st kids) = kids

mutual
  -- Children last to first, then onStop, while the module runs.
  pub stop_module : Module → List Event → Module × List Event
  stop_module (node id name p st kids) log =
      let (kids', log') = stop_kids kids log in
      if is_running st
      then (node id name p inited kids', log' ++ stop id ∷ [])
      else (node id name p st kids, log)

  pub stop_kids : Items → List Event → Items × List Event
  stop_kids nil log = (nil, log)
  stop_kids (item m r rest) log =
      let (rest', log₁) = stop_kids rest log in
      let (m', log₂) = stop_module m log₁ in (item m' r rest', log₂)

mutual
  pub height : Module → ℕ
  height (node id name p st kids) = suc (height_kids kids)

  pub height_kids : Items → ℕ
  height_kids nil = 0
  height_kids (item m r rest) = max (height m) (height_kids rest)

-- The loop of `cleanup` over the children, last to first.
pub cleanup_kids :
    (Module → List Event → Module × List Event) → Items → List Event → Items × List Event
cleanup_kids visit nil log = (nil, log)
cleanup_kids visit (item m r rest) log =
    let (rest', log₁) = cleanup_kids visit rest log in
    let (m', log₂) = visit m log₁ in (item m' r rest', log₂)

-- `cleanup`, with the height of the tree as fuel: it stops the module first and then cleans its
-- stopped children, and calls onCleanup.
pub cleanup_from : ℕ → Module → List Event → Module × List Event
cleanup_from zero m log = (m, log)
cleanup_from (suc n) (node id name p st kids) log =
    let (m', log₁) = stop_module (node id name p st kids) log in
    let (kids', log₂) = cleanup_kids (cleanup_from n) (kids_of m') log₁ in
    if is_fresh st
    then (node id name p st kids, log)
    else (node id name p fresh kids', log₂ ++ clean id ∷ [])

pub cleanup : Module → List Event → Module × List Event
cleanup m log = cleanup_from (height m) m log

module _ (start_ok : ℕ → List Event → Bool) where
  mutual
    pub start_module : Module → List Event → Bool × Module × List Event
    start_module (node id name p st kids) log =
        let (ok, kids', log') = start_kids kids (log ++ start id ∷ []) in
        if not (is_inited st)
        then (false, node id name p st kids, log)
        else if not (start_ok id log)
        then (false, node id name p st kids, log ++ start id ∷ [])
        else if ok
        then (true, node id name p running kids', log')
        else (false, node id name p st kids', log')

    -- The loop over the children, left at a required one that fails.
    pub start_kids : Items → List Event → Bool × Items × List Event
    start_kids nil log = (true, nil, log)
    start_kids (item m required rest) log =
        let (ok, m', log₁) = start_module m log in
        let (oks, rest', log₂) = start_kids rest log₁ in
        if not ok && required
        then (false, item m' required rest, log₁)
        else (oks, item m' required rest', log₂)

-- An early return where there is none.
abbrev pub given {ℓ κ} : {A : Type ℓ} {B : Type κ} → Option A → B → (A → B) → B
given none b f = b
given (some a) b f = f a

module _ {J : Type 0} (field : List ℕ → J → Option J) (init_ok : ℕ → J → List Event → Bool) where
  -- The module's part of the configuration, none where it is missing.
  pub config : List ℕ → J → Option J
  config name js = if empty name then some js else field name js

  mutual
    pub initialize : J → Module → List Event → Bool × Module × List Event
    initialize js (node id name p st kids) log =
        given (if is_fresh st then config name js else none) (false, node id name p st kids, log)
          (λ this.
            let (ok, kids', log') = initialize_kids this kids (log ++ init id ∷ []) in
            if not (init_ok id this log)
            then (false, node id name p st kids, log ++ init id ∷ [])
            else if ok
            then (true, node id name p inited kids', log')
            else (false, node id name p st kids', log'))

    pub initialize_kids : J → Items → List Event → Bool × Items × List Event
    initialize_kids js nil log = (true, nil, log)
    initialize_kids js (item m required rest) log =
        let (ok, m', log₁) = initialize js m log in
        let (oks, rest', log₂) = initialize_kids js rest log₁ in
        if not ok && required
        then (false, item m' required rest, log₁)
        else (oks, item m' required rest', log₂)
