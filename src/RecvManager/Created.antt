-- ===== src/RecvManager/Created.antt =====
-- A queue pair for messages, created by core/qps/rc_recv_manager.hh.
use rlibv.Base.{ℕ, ◌+◌, ◌%◌, ◌^◌, ◌<◌, ◌≡◌, refl, ap, ◌∙◌, none, some, ◌∷◌, arith, u32_mod}
use rlibv.Base.Keys.{nat_eq, string_eq}
use rlibv.Result.{make_ok}
use rlibv.Marshal.{ByteBuffer}
use rlibv.Factory.{find, query}
use rlibv.Factory.Laws.{reg_free, query-eq-find}
use rlibv.Proto.{ok, status_code, to_string, QpAttr, RcReq, RcReply}
use rlibv.RCtrl.{Devices, RCtrl, register_new}
use rlibv.RCtrl.Registered.{fetch_qp_attr_reply-found}
use rlibv.RCtrl.CreateDelete.{
  update_head, find_head, register_new-free, connect_new-result, created,
}
use rlibv.Qps.WrChain.{places}
use rlibv.Qps.RecvEntries.{RecvEntries, Allocator, create, post_recvs}
use rlibv.Qps.RecvEntries.Ring.{IsRing, place, create-IsRing, post_recvs-IsRing}
use rlibv.RecvManager.{
  RecvCommon, Managed, replied, recv_cq_for, post_all, register_entries, with_recvs, after_connect,
  create_msg_qp, msg_rc_reply,
}

-- All entries posted, the ring is as it was.
post_whole :
    (n : ℕ) (r : RecvEntries)
    → IsRing n r
    → 0 < n
    → n < 2 ^ 31
    → post_recvs n none r n
      ≡ some (record { result = make_ok 0; seen = places (place n r.header) n; ring = r })
post_whole n r h pos small =
    (post_recvs-IsRing n r n h pos (omega arith) small).0
    ∙ ap
        (λ (k : ℕ). some (record {
          result = make_ok 0;
          seen = places (place n r.header) n;
          ring = record r { header = k };
        }))
        around
  where
    around : place n r.header n ≡ r.header
    around = ground (arith, h.inside)

module _ (d : Devices) {A : Type 0} (alloc_one : ℕ → Allocator A) (depth : ℕ) where
  -- The manager behind a request that created a queue pair, with the key for its entries drawn after the
  -- queue pair's.
  abbrev pub msg_created : Managed d A → ByteBuffer → d.Rc → RecvEntries → A → Managed d A
  msg_created m name rc entries allocs = record m {
    ctrl = record m.ctrl {
      registered_qps = (name, rc, m.ctrl.keys m.ctrl.drawn) ∷ m.ctrl.registered_qps;
      drawn = m.ctrl.drawn + 1 + 1;
    };
    reg_recv_entries = (name, entries, m.ctrl.keys (m.ctrl.drawn + 1)) ∷ m.reg_recv_entries;
    allocs = allocs;
  }

  -- what the client gets
  abbrev pub created_reply : Managed d A → d.Rc → RcReply
  created_reply m rc = record {
    status = status_code ok;
    attr = d.my_attr rc;
    key = m.ctrl.keys m.ctrl.drawn;
  }

  post_all-created :
      (m : Managed d A) (name : ByteBuffer) (rc rc' : d.Rc) (entries : RecvEntries) (allocs : A)
      → IsRing depth entries
      → 0 < depth
      → depth < 2 ^ 31
      → d.post_recv rc (places (place depth entries.header) depth) ≡ (none, rc')
      → post_all d alloc_one depth
          (msg_created m (to_string name) rc entries allocs)
          name
          (m.ctrl.keys m.ctrl.drawn)
          rc
          entries
        ≡ replied (created_reply m rc') (msg_created m (to_string name) rc' entries allocs)
  unfolding post_all
  post_all-created m name rc rc' entries allocs ring pos small accepted =
      rw (post_whole depth entries ring pos small, post_all)
        (rw accepted (
          rw
            (
              update_head (to_string name) rc' rc (m.ctrl.keys m.ctrl.drawn) m.ctrl.registered_qps,
              update_head (to_string name) entries entries (m.ctrl.keys (m.ctrl.drawn + 1))
                  m.reg_recv_entries,
              fetch_qp_attr_reply-found d (msg_created m (to_string name) rc' entries allocs).ctrl
                  name (m.ctrl.keys m.ctrl.drawn) rc'
                  (query-eq-find _ _ _ (
                    find_head (to_string name) rc' (m.ctrl.keys m.ctrl.drawn)
                      m.ctrl.registered_qps)),
            )
            refl))

  -- the manager with its queue pair registered and connected, and no entries yet
  abbrev pub with_qp : Managed d A → ByteBuffer → d.Rc → Managed d A
  with_qp m name rc = record m { ctrl = created d m.ctrl name rc }

  register_entries-free :
      (m : Managed d A) (name : ByteBuffer) (key : ℕ) (rc : d.Rc) (entries : RecvEntries)
      → find (to_string name) m.reg_recv_entries ≡ none
      → register_entries d alloc_one depth m name key rc entries
        ≡ post_all d alloc_one depth
            (record m {
              reg_recv_entries =
                  (to_string name, entries, m.ctrl.keys m.ctrl.drawn) ∷ m.reg_recv_entries;
              ctrl = record m.ctrl { drawn = m.ctrl.drawn + 1 };
            })
            name
            key
            rc
            entries
  unfolding register_entries
  register_entries-free m name key rc entries free = simp (
    reg_free m.reg_recv_entries (to_string name) entries (m.ctrl.keys m.ctrl.drawn) free,
    register_entries,
  )

  with_recvs-created :
      (m : Managed d A) (req : RcReq) (rc rc' rc'' : d.Rc) (desc : ByteBuffer) (c : RecvCommon d)
      (entries : RecvEntries) (allocs : A)
      → d.connect rc req.attr ≡ some (make_ok desc, rc')
      → query m.reg_recv_cqs (to_string req.name_recv) ≡ some c
      → create (alloc_one c.allocator) depth m.allocs (req.max_recv_sz % u32_mod)
        ≡ some (entries, allocs)
      → find (to_string req.name) m.reg_recv_entries ≡ none
      → 0 < depth
      → depth < 2 ^ 31
      → d.post_recv rc' (places (place depth entries.header) depth) ≡ (none, rc'')
      → with_recvs d alloc_one depth
          (with_qp m (to_string req.name) rc')
          req
          (m.ctrl.keys m.ctrl.drawn)
          rc'
        ≡ replied (created_reply m rc'') (msg_created m (to_string req.name) rc'' entries allocs)
  unfolding with_recvs
  with_recvs-created m req rc rc' rc'' desc c entries allocs connected queue made free pos small
        accepted =
      rw (queue, with_recvs)
        (rw made (
          register_entries-free
            (record m { ctrl = created d m.ctrl (to_string req.name) rc'; allocs = allocs })
            req.name (m.ctrl.keys m.ctrl.drawn) rc' entries free
          ∙ (post_all-created m req.name rc' rc'' entries allocs
              (create-IsRing (alloc_one c.allocator) depth m.allocs allocs
                (req.max_recv_sz % u32_mod) entries pos made)
              pos small accepted)))

  -- registering and connecting under a free name
  register_new-connected :
      (s : RCtrl d) (name : ByteBuffer) (rc rc' : d.Rc) (attr : QpAttr) (desc : ByteBuffer)
      → find name s.registered_qps ≡ none
      → d.connect rc attr ≡ some (make_ok desc, rc')
      → register_new d s name rc attr ≡ some (some (s.keys s.drawn), created d s name rc')
  register_new-connected s name rc rc' attr desc free connected =
      rw
        (
          register_new-free d s name rc attr free,
          connect_new-result d s s.registered_qps name rc (s.keys s.drawn) (s.drawn + 1) attr
              (make_ok desc, rc') connected,
        )
        refl

  pub msg_rc_reply-create :
      (m : Managed d A) (req : RcReq)
      → req.whether_create ≡ 1
      → msg_rc_reply d alloc_one depth m req ≡ create_msg_qp d alloc_one depth m req
  unfolding msg_rc_reply
  msg_rc_reply-create m req h = rw (h, msg_rc_reply)

  pub create_msg_qp-connected :
      (m : Managed d A) (req : RcReq) (nic : d.Nic) (rc rc' : d.Rc) (desc : ByteBuffer)
      → req.whether_create ≡ 1
      → query m.ctrl.opened_nics req.nic_id ≡ some nic
      → d.create nic req.config (recv_cq_for d alloc_one depth m req) ≡ some rc
      → find (to_string req.name) m.ctrl.registered_qps ≡ none
      → d.connect rc req.attr ≡ some (make_ok desc, rc')
      → msg_rc_reply d alloc_one depth m req
        ≡ with_recvs d alloc_one depth
            (with_qp m (to_string req.name) rc')
            req
            (m.ctrl.keys m.ctrl.drawn)
            rc'
  unfolding create_msg_qp after_connect
  create_msg_qp-connected m req nic rc rc' desc h opened made free connected =
      msg_rc_reply-create m req h
      ∙ (rw (opened, create_msg_qp)
          (rw made (
            rw
              (
                register_new-connected m.ctrl (to_string req.name) rc rc' req.attr desc free
                    connected,
                after_connect,
              )
              (rw connected refl))))

  recv_cq_for-registered :
      (m : Managed d A) (req : RcReq) (c : RecvCommon d)
      → req.whether_recv ≡ 1
      → query m.reg_recv_cqs (to_string req.name_recv) ≡ some c
      → recv_cq_for d alloc_one depth m req ≡ some c.cq
  unfolding recv_cq_for
  recv_cq_for-registered m req c h queue = ground (arith, h, queue)

  -- A request for a queue pair that receives messages is served as follows, where its NIC is opened, its
  -- receive queue is registered, its name is free for the queue pair and for the entries, and the creation,
  -- the connection, the allocation and the posting succeed. The queue pair is registered, created on
  -- the registered queue; a whole ring of entries is registered under the same name, with all of them
  -- posted; and the reply has the queue pair's attributes and its key.
  pub msg_rc_reply-created :
      (m : Managed d A) (req : RcReq) (nic : d.Nic) (rc rc' rc'' : d.Rc) (desc : ByteBuffer)
      (c : RecvCommon d) (entries : RecvEntries) (allocs : A)
      → req.whether_create ≡ 1
      → req.whether_recv ≡ 1
      → query m.ctrl.opened_nics req.nic_id ≡ some nic
      → query m.reg_recv_cqs (to_string req.name_recv) ≡ some c
      → d.create nic req.config (some c.cq) ≡ some rc
      → find (to_string req.name) m.ctrl.registered_qps ≡ none
      → d.connect rc req.attr ≡ some (make_ok desc, rc')
      → create (alloc_one c.allocator) depth m.allocs (req.max_recv_sz % u32_mod)
        ≡ some (entries, allocs)
      → find (to_string req.name) m.reg_recv_entries ≡ none
      → 0 < depth
      → depth < 2 ^ 31
      → d.post_recv rc' (places (place depth entries.header) depth) ≡ (none, rc'')
      → (msg_rc_reply d alloc_one depth m req
          ≡ replied (created_reply m rc'') (msg_created m (to_string req.name) rc'' entries allocs))
        × IsRing depth entries
  msg_rc_reply-created m req nic rc rc' rc'' desc c entries allocs h k opened queue made free
        connected allocated free' pos small accepted =
      (
        create_msg_qp-connected m req nic rc rc' desc h opened
              (ap (d.create nic req.config) (recv_cq_for-registered m req c k queue) ∙ made) free
              connected
            ∙ with_recvs-created m req rc rc' rc'' desc c entries allocs connected queue allocated
                free' pos small accepted,
        create-IsRing (alloc_one c.allocator) depth m.allocs allocs (req.max_recv_sz % u32_mod)
            entries pos allocated,
      )
