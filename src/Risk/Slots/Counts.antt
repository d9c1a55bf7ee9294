-- ===== src/Risk/Slots/Counts.antt =====
-- How writes and deletes of the order map change the count of open orders.
use meltica_gateway.Common.{◌+◌, ◌≡◌, refl, none, some, [], ◌∷◌, arith, ==_iff}
use meltica_gateway.Common.Text.{Text, text_eq}
use meltica_gateway.Common.Map.{Map, get, put, delete, get-put, get-delete}
use meltica_gateway.Risk.Types.{Outside, OrderState}
use meltica_gateway.Risk.Slots.{unit_of, count_open, Distinct}

module _ {V : Type 0} where
  pub put-Distinct : (m : Map Text V) (k : Text) (v : V) → Distinct m → Distinct (put m k v)
  unfolding put get
  put-Distinct [] k v d = (refl, tt)
  put-Distinct ((j, w) ∷ m) k v d =
      ground (arith, put-Distinct m k v d.1, get-put m k j v, ==_iff j k, ==_iff k j)

  pub delete-Distinct : (m : Map Text V) (k : Text) → Distinct m → Distinct (delete m k)
  unfolding delete
  delete-Distinct [] k d = tt
  delete-Distinct ((j, w) ∷ m) k d = ground (arith, delete-Distinct m k d.1, get-delete m k j)

  pub delete_absent : (m : Map Text V) (k : Text) → get m k ≡ none → delete m k ≡ m
  unfolding delete get
  delete_absent [] k h = refl
  delete_absent ((j, w) ∷ m) k h = ground (arith, delete_absent m k)

module _ {o : Outside} where
  pub count-put_fresh :
      (m : Map Text (OrderState o)) (k s : Text) (v : OrderState o)
      → get m k ≡ none
      → count_open (put m k v) s ≡ count_open m s + unit_of v s
  unfolding put get
  count-put_fresh [] k s v h = ground arith
  count-put_fresh ((j, w) ∷ m) k s v h = ground (arith, count-put_fresh m k s v)

  pub count-put_same :
      (m : Map Text (OrderState o)) (k s : Text) (v w : OrderState o)
      → get m k ≡ some w
      → v.symbol ≡ w.symbol
      → count_open (put m k v) s ≡ count_open m s
  unfolding put get
  count-put_same [] k s v w h e = cc
  count-put_same ((j, x) ∷ m) k s v w h e = ground (arith, count-put_same m k s v w)

  pub count-delete :
      (m : Map Text (OrderState o)) (k s : Text) (w : OrderState o)
      → Distinct m
      → get m k ≡ some w
      → count_open (delete m k) s + unit_of w s ≡ count_open m s
  unfolding delete get
  count-delete [] k s w d h = cc
  count-delete ((j, x) ∷ m) k s w d h =
      ground (arith, count-delete m k s w d.1, ==_iff j k, delete_absent m k)
