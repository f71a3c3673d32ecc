-- ===== src/Inpod/Protocol.antt =====
-- src/inpod/protocol.rs: the reading of one message of the node agent, with the descriptor that comes
-- beside it. The protobuf decoder is a parameter.
use ztunnel.Common.{
  ℕ, ◌≤◌, ◌+◌, ◌≡◌, ◌≢◌, ◌↔◌, ◌⊎◌, ◌∙◌, refl, inl, inr, sym, ap, subst, Bool, true, false, not,
  List, [], ◌∷◌, ◌++◌, Option, none, some, String, arith, All, In, nat_beq, ltb, Bool-cases,
  Option-cases, if◌then◌else◌, In-append, In-append_left, In-append_right,
}
use mathlib.Core.List.{append_assoc, append-nil}
use ztunnel.Common.Outcome.{Result, ok, err, ◌>>=◌, ◌>>◌, ensure}
use ztunnel.Workload.{WorkloadInfo}
use ztunnel.Inpod.{
  WorkloadMessage, add_workload, keep_workload, del_workload, workload_snapshot_sent,
}

pub data ControlMessage : Type 0 where
  scm_rights : List ℕ → ControlMessage
  other_control : ControlMessage

pub record MsgFlags : Type 0 where
  pub msg_trunc : Bool
  pub msg_ctrunc : Bool

pub data ReadError : Type 0 where
  truncated undecodable no_payload no_control_message unexpected_control_message : ReadError
  expected_one_fd : ℕ → ReadError
  index_out_of_bounds : ReadError  -- the panic of `fds[0]`

pub data Payload : Type 0 where
  add : String → Option WorkloadInfo → Payload
  keep del : String → Payload
  snapshot_sent : Payload

pub record WorkloadRequest : Type 0 where
  pub payload : Option Payload

abbrev pub length : List ℕ → ℕ
length [] = 0
length (x ∷ xs) = length xs + 1

-- The variables of the loop, and the descriptors closed so far.
pub record FdScan : Type 0 where
  pub our_netns : Option ℕ
  pub total_fds : ℕ
  pub closed : List ℕ

-- A scan that panicked is `none`.
abbrev pub own_first : List ℕ → FdScan → Option FdScan
own_first [] s = none
own_first (fd ∷ fds) s = some (record s { our_netns = some fd })

abbrev pub scan_one : ControlMessage → FdScan → Option FdScan
scan_one other_control s = some s
scan_one (scm_rights fds) s =
    let counted = record s { total_fds = s.total_fds + length fds } in
    if nat_beq counted.total_fds 1
    then own_first fds counted
    else some (record counted { closed = counted.closed ++ fds })

pub scan : List ControlMessage → FdScan → Option FdScan
scan [] s = some s
scan (c ∷ cs) s = elim (scan_one c s) [ none ↦ none | some t ↦ scan cs t ]

abbrev pub fd_list : Option ℕ → List ℕ
fd_list none = []
fd_list (some fd) = fd ∷ []

-- The error drops `our_netns`, which closes it. The second component is what was closed.
abbrev pub finish : Option FdScan → Result ReadError (Option ℕ) × List ℕ
finish none = (err index_out_of_bounds, [])
finish (some s) =
    if ltb 1 s.total_fds
    then (err (expected_one_fd s.total_fds), s.closed ++ fd_list s.our_netns)
    else (ok s.our_netns, s.closed)

pub maybe_get_fd : List ControlMessage → Result ReadError (Option ℕ) × List ℕ
unfolding scan
maybe_get_fd cs = finish (scan cs (record { our_netns = none; total_fds = 0; closed = [] }))

abbrev pub decoded : Option WorkloadRequest → Result ReadError Payload
decoded none = err undecodable
decoded (some req) = elim req.payload [ none ↦ err no_payload | some p ↦ ok p ]

abbrev pub message_of : Payload → Option ℕ → Result ReadError WorkloadMessage
message_of (add uid info) (some our_netns) =
    ok (add_workload (record { netns = our_netns; workload_uid = uid; workload_info = info }))
message_of (add uid info) none = err no_control_message
message_of (keep uid) (some fd) = err unexpected_control_message
message_of (del uid) (some fd) = err unexpected_control_message
message_of snapshot_sent (some fd) = err unexpected_control_message
message_of (keep uid) none = ok (keep_workload uid)
message_of (del uid) none = ok (del_workload uid)
message_of snapshot_sent none = ok workload_snapshot_sent

pub get_workload_data :
    (decode : List ℕ → Option WorkloadRequest) (bytes : List ℕ) (maybe_our_fd : Option ℕ)
    → MsgFlags
    → Result ReadError WorkloadMessage
get_workload_data decode bytes maybe_our_fd flags = do
  ensure (not flags.msg_trunc) truncated
  ensure (not flags.msg_ctrunc) truncated
  payload ← decoded (decode bytes)
  message_of payload maybe_our_fd

-- How the node agent writes a message: its payload, and the descriptor beside it.
pub written : WorkloadMessage → Payload × Option ℕ
written (add_workload d) = (add d.workload_uid d.workload_info, some d.netns)
written (keep_workload uid) = (keep uid, none)
written (del_workload uid) = (del uid, none)
written workload_snapshot_sent = (snapshot_sent, none)

message_of-written :
    (m : WorkloadMessage) (q : Payload) (fd : Option ℕ)
    → (message_of q fd ≡ ok m) ↔ ((q, fd) ≡ written m)
unfolding written
message_of-written (add_workload d) (add uid info) (some n) = ground arith
message_of-written (keep_workload u) (add uid info) (some n) = ground arith
message_of-written (del_workload u) (add uid info) (some n) = ground arith
message_of-written workload_snapshot_sent (add uid info) (some n) = ground arith
message_of-written m (add uid info) none = ground arith
message_of-written m (keep uid) none = ground arith
message_of-written m (keep uid) (some n) = ground arith
message_of-written m (del uid) none = ground arith
message_of-written m (del uid) (some n) = ground arith
message_of-written m snapshot_sent none = ground arith
message_of-written m snapshot_sent (some n) = ground arith

-- A message is read exactly when nothing was cut off and the decoder gives the payload of that message,
-- with a descriptor beside it exactly where the message has one.
pub get_workload_data_iff :
    (decode : List ℕ → Option WorkloadRequest) (bytes : List ℕ) (maybe_our_fd : Option ℕ)
    (flags : MsgFlags) (m : WorkloadMessage)
    → (get_workload_data decode bytes maybe_our_fd flags ≡ ok m) ↔ (
        (flags.msg_trunc ≡ false)
        × (flags.msg_ctrunc ≡ false)
        × (decode bytes ≡ some (record { payload = some (written m).0 }))
        × (maybe_our_fd ≡ (written m).1))
unfolding get_workload_data
get_workload_data_iff decode bytes fd flags m = elim (Option-cases (decode bytes)) [
  | inl e ↦ ground (arith, e)
  | inr (req, e) ↦ elim (Option-cases req.payload) [
    | inl f ↦ ground (arith, e, f)
    | inr (q, f) ↦ ground (arith, e, f, message_of-written m q fd)
  ]
]

abbrev pub rights_of : ControlMessage → List ℕ
rights_of (scm_rights fds) = fds
rights_of other_control = []

abbrev pub all_fds : List ControlMessage → List ℕ
all_fds [] = []
all_fds (c ∷ cs) = rights_of c ++ all_fds cs

-- What the kernel promises of a message with descriptors.
abbrev pub IsFilled : ControlMessage → Type 0
IsFilled c = (c ≢ scm_rights [])

abbrev pub first_fd : List ℕ → Option ℕ
first_fd [] = none
first_fd (fd ∷ fds) = some fd

-- The scan after the descriptors `seen`.
record HasScanned (seen : List ℕ) (s : FdScan) : Type 0 where
  counted : s.total_fds ≡ length seen
  few : length seen ≤ 1 → (s.our_netns ≡ first_fd seen) × (s.closed ≡ [])
  kept : (fd : ℕ) → In fd seen → In fd (s.closed ++ fd_list s.our_netns)

length-append : (xs ys : List ℕ) → length (xs ++ ys) ≡ length xs + length ys
length-append [] ys = omega arith
length-append (x ∷ xs) ys = omega (arith, length-append xs ys)

HasScanned-alone :
    (seen : List ℕ) (fd : ℕ) (fds : List ℕ) (s : FdScan)
    → nat_beq (s.total_fds + length (fd ∷ fds)) 1 ≡ true
    → HasScanned seen s
    → HasScanned
        (seen ++ (fd ∷ fds))
        (record s { our_netns = some fd; total_fds = s.total_fds + length (fd ∷ fds) })
HasScanned-alone [] fd [] s one h = record {
  counted = ground (arith, h.counted);
  few = λ le. (refl, (h.few (omega arith)).1);
  kept = λ k i. rw ((h.few (omega arith)).1) i;
}
HasScanned-alone [] fd (g ∷ fds) s one h = absurd (ground arith)
HasScanned-alone (x ∷ seen) fd fds s one h = absurd (ground (arith, h.counted))

HasScanned-scan_one :
    (c : ControlMessage) (seen : List ℕ) (s : FdScan)
    → IsFilled c
    → HasScanned seen s
    → (t : FdScan) × (scan_one c s ≡ some t) × HasScanned (seen ++ rights_of c) t
HasScanned-scan_one other_control seen s filled h = (s, refl, rw (append-nil seen) h)
HasScanned-scan_one (scm_rights []) seen s filled h = absurd (filled refl)
HasScanned-scan_one (scm_rights (fd ∷ fds)) seen s filled h =
    let counted = record s { total_fds = s.total_fds + length (fd ∷ fds) } in
    let total : counted.total_fds ≡ length (seen ++ (fd ∷ fds)) =
      omega (arith, h.counted, length-append seen (fd ∷ fds)) in
    elim (Bool-cases (nat_beq counted.total_fds 1)) [
      | inl one ↦ (
        record counted { our_netns = some fd },
        rw one refl,
        HasScanned-alone seen fd fds s one h,
      )
      | inr more ↦ (
        record counted { closed = s.closed ++ (fd ∷ fds) },
        rw more refl,
        record {
          counted = total;
          few = λ le. absurd (ground (arith, total, le, more, length-append seen (fd ∷ fds)));
          kept = λ k i. closes k i;
        },
      )
    ]
  where
    closes :
        (k : ℕ) → In k (seen ++ (fd ∷ fds)) → In k (s.closed ++ (fd ∷ fds) ++ fd_list s.our_netns)
    closes k i = elim (In-append k seen (fd ∷ fds) i) [
      | inl old ↦ elim (In-append k s.closed (fd_list s.our_netns) (h.kept k old)) [
        | inl c ↦ In-append_left k (s.closed ++ (fd ∷ fds)) _ (In-append_left k s.closed _ c)
        | inr o ↦ In-append_right k (s.closed ++ (fd ∷ fds)) _ o
      ]
      | inr new ↦ In-append_left k (s.closed ++ (fd ∷ fds)) _ (In-append_right k s.closed _ new)
    ]

HasScanned-scan :
    (cs : List ControlMessage) (seen : List ℕ) (s : FdScan)
    → All IsFilled cs
    → HasScanned seen s
    → (t : FdScan) × (scan cs s ≡ some t) × HasScanned (seen ++ all_fds cs) t
unfolding scan
HasScanned-scan [] seen s filled h = (s, refl, rw (append-nil seen) h)
HasScanned-scan (c ∷ cs) seen s filled h =
    let (t, e, h1) = HasScanned-scan_one c seen s filled.0 h in
    let (u, f, h2) = HasScanned-scan cs (seen ++ rights_of c) t filled.1 h1 in
    (
      u,
      rw (scan, e) f,
      subst (λ l. HasScanned l u) (append_assoc seen (rights_of c) (all_fds cs)) h2,
    )

-- What the scan is to give.
abbrev pub expected_fd : List ℕ → Result ReadError (Option ℕ)
expected_fd fds =
    if ltb 1 (length fds) then err (expected_one_fd (length fds)) else ok (first_fd fds)

-- A descriptor is handed on or closed.
abbrev pub IsAccounted : Result ReadError (Option ℕ) × List ℕ → ℕ → Type 0
IsAccounted r fd = (r.0 ≡ ok (some fd)) ⊎ In fd r.1

All-IsAccounted :
    (r : Result ReadError (Option ℕ) × List ℕ) (fds : List ℕ)
    → ((fd : ℕ) → In fd fds → IsAccounted r fd)
    → All (IsAccounted r) fds
All-IsAccounted r [] h = tt
All-IsAccounted r (fd ∷ fds) h = (h fd (inl refl), All-IsAccounted r fds (λ k i. h k (inr i)))

lone-first :
    (fds : List ℕ) (fd : ℕ) → ltb 1 (length fds) ≡ false → In fd fds → first_fd fds ≡ some fd
lone-first [] fd le i = elim i [ ]
lone-first (g ∷ []) fd le (inl e) = ap some (sym e)
lone-first (g ∷ []) fd le (inr i) = elim i [ ]
lone-first (g ∷ h ∷ fds) fd le i = absurd (ground arith)

-- Where no control message is empty, the scan gives the only descriptor, or none where there is none,
-- and fails with their number from two on; and it leaks no descriptor: each is handed on or closed.
pub maybe_get_fd_lem :
    (cs : List ControlMessage)
    → All IsFilled cs
    → ((maybe_get_fd cs).0 ≡ expected_fd (all_fds cs))
      × All (IsAccounted (maybe_get_fd cs)) (all_fds cs)
unfolding maybe_get_fd
maybe_get_fd_lem cs filled =
    let fresh : FdScan = record { our_netns = none; total_fds = 0; closed = [] } in
    let start : HasScanned [] fresh = record {
      counted = refl;
      few = λ le. (refl, refl);
      kept = λ k i. elim i [ ];
    } in
    let (t, e, h) = HasScanned-scan cs [] fresh filled start in
    elim (Bool-cases (ltb 1 (length (all_fds cs)))) [
      | inl many ↦
          let over : ltb 1 t.total_fds ≡ true = ground (arith, h.counted, many) in
          rw e (
            rw over (
              ground (arith, h.counted, many),
              All-IsAccounted _ (all_fds cs) (λ fd i. inr (h.kept fd i)),
            ))
      | inr few ↦
          let under : ltb 1 t.total_fds ≡ false = ground (arith, h.counted, few) in
          let (own, none_closed) = h.few (ground (arith, few)) in
          rw e (
            rw under (
              ground (arith, own, few),
              All-IsAccounted _ (all_fds cs)
                  (λ fd i. inl (ap ok (own ∙ lone-first (all_fds cs) fd few i))),
            ))
    ]
