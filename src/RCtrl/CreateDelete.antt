-- ===== src/RCtrl/CreateDelete.antt =====
-- The life of a queue pair in core/rctrl.hh: `rc_handler` creates it, `delete_rc` takes it off.
use rlibv.Base.{
  ℕ, ◌+◌, true, ◌≡◌, ◌≢◌, refl, sym, ap, ◌∙◌, none, some, ◌∷◌, if◌then◌else◌, arith, ==_refl, ◌>>=◌,
}
use rlibv.Base.Keys.{string_eq, nat_eq}
use rlibv.Result.{Result, is_ok, make_ok}
use rlibv.Marshal.{ByteBuffer}
use rlibv.Factory.{Store, find, query, erase, dereg}
use rlibv.Factory.Laws.{reg_free, reg_taken, dereg_found, query-eq-find}
use rlibv.Proto.{ok, wrong_arg, status_code, to_string, QpAttr, RcReq}
use rlibv.RCtrl.{
  Devices, RCtrl, rc_status, update, deleted, delete_rc_reply, connect_new, register_new, create_qp,
  reply_created, rc_reply,
}
use rlibv.RCtrl.Registered.{fetch_qp_attr_reply-found}

name_refl : (k : ByteBuffer) → string_eq.beq k k ≡ true
name_refl k = (string_eq.beq_iff k k).1 refl

module _ {V : Type 0} where
  pub update_head :
      (k : ByteBuffer) (v w : V) (key : ℕ) (store : Store ByteBuffer V)
      → update k v ((k, w, key) ∷ store) ≡ (k, v, key) ∷ store
  unfolding update
  update_head k v w key store = rw (name_refl k, update)

  pub find_head :
      (k : ByteBuffer) (v : V) (key : ℕ) (store : Store ByteBuffer V)
      → find k ((k, v, key) ∷ store) ≡ some (v, key)
  unfolding find
  find_head k v key store = rw (name_refl k, find)

  erase_head :
      (k : ByteBuffer) (v : V) (key : ℕ) (store : Store ByteBuffer V)
      → erase k ((k, v, key) ∷ store) ≡ store
  unfolding erase
  erase_head k v key store = rw (name_refl k, erase)

  pub dereg_head :
      (k : ByteBuffer) (v : V) (key : ℕ) (store : Store ByteBuffer V)
      → dereg ((k, v, key) ∷ store) k key ≡ (some v, store)
  dereg_head k v key store =
      dereg_found ((k, v, key) ∷ store) k key (v, key) (find_head k v key store)
      ∙ rw (==_refl key, erase_head k v key store) refl

  dereg_other_key :
      (k : ByteBuffer) (v : V) (key other : ℕ) (store : Store ByteBuffer V)
      → key ≢ other
      → dereg ((k, v, key) ∷ store) k other ≡ (none, (k, v, key) ∷ store)
  dereg_other_key k v key other store ne =
      dereg_found ((k, v, key) ∷ store) k other (v, key) (find_head k v key store)
      ∙ ground (arith, ne)

module _ (d : Devices) where
  -- Connecting what was just registered, where that does not throw: it stays, as `connect` left it, or nothing
  -- of it stays.
  pub connect_new-result :
      (s : RCtrl d) (store : Store ByteBuffer d.Rc) (name : ByteBuffer) (rc : d.Rc) (key drawn : ℕ)
      (attr : QpAttr) (x : Result ByteBuffer × d.Rc)
      → d.connect rc attr ≡ some x
      → connect_new d
          (record s { registered_qps = (name, rc, key) ∷ store; drawn = drawn })
          name
          rc
          key
          attr
        ≡ some (
            if is_ok x.0
            then (some key, record s { registered_qps = (name, x.1, key) ∷ store; drawn = drawn })
            else (none, record s { registered_qps = store; drawn = drawn }))
  unfolding connect_new
  connect_new-result s store name rc key drawn attr x connected =
      rw (connected, connect_new)
        (rw (update_head name x.1 rc key store) (rw (dereg_head name x.1 key store) refl))

  pub register_new-free :
      (s : RCtrl d) (name : ByteBuffer) (rc : d.Rc) (attr : QpAttr)
      → find name s.registered_qps ≡ none
      → register_new d s name rc attr
        ≡ connect_new d
            (record s {
              registered_qps = (name, rc, s.keys s.drawn) ∷ s.registered_qps;
              drawn = s.drawn + 1;
            })
            name
            rc
            (s.keys s.drawn)
            attr
  unfolding register_new
  register_new-free s name rc attr free =
      simp (reg_free s.registered_qps name rc (s.keys s.drawn) free, register_new)

  pub register_new-taken :
      (s : RCtrl d) (name : ByteBuffer) (rc : d.Rc) (attr : QpAttr) (x : d.Rc × ℕ)
      → find name s.registered_qps ≡ some x
      → register_new d s name rc attr ≡ some (none, s)
  unfolding register_new
  register_new-taken s name rc attr x taken =
      simp (reg_taken s.registered_qps name rc (s.keys s.drawn) x taken, register_new)

  -- The server behind a request that created a queue pair.
  abbrev pub created : RCtrl d → ByteBuffer → d.Rc → RCtrl d
  created s name rc = record s {
    registered_qps = (name, rc, s.keys s.drawn) ∷ s.registered_qps;
    drawn = s.drawn + 1;
  }

  pub create_qp-eq-register_new :
      (s : RCtrl d) (req : RcReq) (nic : d.Nic) (rc : d.Rc)
      → query s.opened_nics req.nic_id ≡ some nic
      → d.create nic req.config none ≡ some rc
      → create_qp d s req ≡ register_new d s (to_string req.name) rc req.attr
  unfolding create_qp
  create_qp-eq-register_new s req nic rc opened made = rw (opened, create_qp) (rw made refl)

  pub rc_reply-create :
      (s : RCtrl d) (req : RcReq)
      → req.whether_create ≡ 1
      → rc_reply d s req ≡ (create_qp d s req >>= λ r. some (reply_created d req.name r))
  unfolding rc_reply
  rc_reply-create s req h = rw (h, rc_reply)

  pub rc_reply-created :
      (s : RCtrl d) (req : RcReq) (nic : d.Nic) (rc rc' : d.Rc) (desc : ByteBuffer)
      → req.whether_create ≡ 1
      → query s.opened_nics req.nic_id ≡ some nic
      → d.create nic req.config none ≡ some rc
      → find (to_string req.name) s.registered_qps ≡ none
      → d.connect rc req.attr ≡ some (make_ok desc, rc')
      → rc_reply d s req
        ≡ some (
          record { status = status_code ok; attr = d.my_attr rc'; key = s.keys s.drawn },
          created s (to_string req.name) rc',
        )
  rc_reply-created s req nic rc rc' desc h opened made free connected =
      rw
        (
          rc_reply-create s req h,
          create_qp-eq-register_new s req nic rc opened made,
          register_new-free s (to_string req.name) rc req.attr free,
          connect_new-result s s.registered_qps (to_string req.name) rc (s.keys s.drawn)
              (s.drawn + 1) req.attr (make_ok desc, rc') connected,
          fetch_qp_attr_reply-found d (created s (to_string req.name) rc') req.name (s.keys s.drawn)
              rc'
              (query-eq-find _ _ _
                (find_head (to_string req.name) rc' (s.keys s.drawn) s.registered_qps)),
        )
        refl

  -- A request that creates a queue pair under a free name, on an opened NIC, where the creation and
  -- the connection succeed, is answered with its attributes and its key. Deleting it with this name
  -- and key succeeds then and leaves the registry as it was; with any other key it fails, and the
  -- queue pair stays.
  pub delete-created :
      (s : RCtrl d) (req : RcReq) (nic : d.Nic) (rc rc' : d.Rc) (desc : ByteBuffer) (other : ℕ)
      → req.whether_create ≡ 1
      → query s.opened_nics req.nic_id ≡ some nic
      → d.create nic req.config none ≡ some rc
      → find (to_string req.name) s.registered_qps ≡ none
      → d.connect rc req.attr ≡ some (make_ok desc, rc')
      → other ≢ s.keys s.drawn
      → (rc_reply d s req
          ≡ some (
            record { status = status_code ok; attr = d.my_attr rc'; key = s.keys s.drawn },
            created s (to_string req.name) rc',
          ))
        × (delete_rc_reply d
              (created s (to_string req.name) rc').registered_qps
              (record { name = req.name; key = s.keys s.drawn })
            ≡ (rc_status ok, s.registered_qps))
        × (delete_rc_reply d
              (created s (to_string req.name) rc').registered_qps
              (record { name = req.name; key = other })
            ≡ (rc_status wrong_arg, (created s (to_string req.name) rc').registered_qps))
  unfolding delete_rc_reply
  delete-created s req nic rc rc' desc other h opened made free connected ne = (
    rc_reply-created s req nic rc rc' desc h opened made free connected,
    ap (deleted d) (dereg_head (to_string req.name) rc' (s.keys s.drawn) s.registered_qps),
    ap (deleted d) (
        dereg_other_key (to_string req.name) rc' (s.keys s.drawn) other s.registered_qps
          (λ e. ne (sym e))),
  )
