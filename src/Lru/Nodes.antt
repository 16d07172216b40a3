-- ===== src/Lru/Nodes.antt =====
-- lru_cache.h: the operations that move a node between the lists and touch no table.
use gcache.Common.{Bool, not, Option, some, ◌==◌, ltb, if◌then◌else◌, ◌>>=◌, ◌>>◌, assert, update}
use gcache.Common.Words.{inc32, dec32, inc64}
use gcache.Node.{Ptr}
use gcache.Ring.{list_remove, list_append}
use gcache.Lru.State.{World}

module _ {ℓ} {K V : Type ℓ} where
  unfoldable pub free_node : World K V → Ptr → World K V
  free_node w e = record w { store = list_append w.store w.cache.free_ e }

  unfoldable pub ref : World K V → Ptr → World K V
  ref w e =
      let s =
        if w.store.refs e == 1
        then list_append (list_remove w.store e) w.cache.in_use_ e
        else w.store in
      record w { store = record s { refs = update s.refs e (inc32 (s.refs e)) } }

  unfoldable pub unref : World K V → Ptr → Option (World K V)
  unref w e = do
    assert (ltb 0 (w.store.refs e))
    let s = record w.store { refs = update w.store.refs e (dec32 (w.store.refs e)) }
    some (
        if s.refs e == 0
        then free_node (record w { store = s }) e
        else if s.refs e == 1
        then record w { store = list_append (list_remove s e) w.cache.lru_ e }
        else record w { store = s })

  -- The result is the node that has taken the place of `e`.
  unfoldable pub lru_refresh : World K V → Ptr → Option (Ptr × World K V)
  lru_refresh w e = do
    assert (not (e == w.cache.lru_))
    assert (w.store.refs e == 1)
    let successor = w.store.next e
    some (
        if successor == w.cache.lru_
        then (e, w)
        else (successor, record w { store = list_append (list_remove w.store e) w.cache.lru_ e }))

  unfoldable pub lookup_refresh : World K V → Ptr → Bool → Option (World K V)
  lookup_refresh w node pin =
      if pin
      then some (ref w node)
      else if w.store.refs node == 1
      then (do (_, w) ← lru_refresh w node; some w)
      else some w

  unfoldable pub release : World K V → Ptr → Option (World K V)
  release w handle = do
    assert (ltb 1 (w.store.refs handle))
    w' ← unref w handle
    assert (ltb 0 (w'.store.refs handle))
    some w'

  unfoldable pub pin : World K V → Ptr → World K V
  pin w handle = ref w handle

  unfoldable pub assign : World K V → Ptr → World K V
  assign w e =
      free_node (record w { cache = record w.cache { capacity_ = inc64 w.cache.capacity_ } }) e
