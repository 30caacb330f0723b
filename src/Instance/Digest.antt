-- ===== src/Instance/Digest.antt =====
-- The pre-images of the two digests: when they are computed, and that they determine the instance.
use arm_noir.Prelude.{
  ℕ, ◌^◌, ◌<◌, ◌≡◌, refl, sym, ◌∙◌, some, List, [], ◌∷◌, ◌++◌, length, length-append, append-nil,
  arith,
}
use arm_noir.Bytes.{Bytes, join}
use arm_noir.Bytes.Laws.{
  write_parts_lem, length-le_bytes, le_bytes-injective, append-injective, flag_byte-injective,
}
use arm_noir.Bytes.Parts.{SameShape, join-injective, length-join-append, SameShape-append}
use arm_noir.Instance.{
  ExpirableBlob, AppData, ResourceLogicInstance, payload_parts, logic_parts, logic_preimage,
}

-- One blob of 340 bytes, and counts that fit a u32.
abbrev pub IsPayload : List ExpirableBlob → ℕ → Type 0
IsPayload [] len = ⊥
IsPayload (b ∷ []) len = (length b.blob ≡ 340) × (b.blob_len < 256 ^ 4) × (len < 256 ^ 4)
IsPayload (b ∷ c ∷ blobs) len = ⊥

length-payload_parts :
    (blobs : List ExpirableBlob) (len : ℕ)
    → IsPayload blobs len
    → (length (payload_parts blobs len) ≡ 4) × (length (join (payload_parts blobs len)) ≡ 349)
length-payload_parts [] len v = elim v [ ]
length-payload_parts (b ∷ []) len (size, _, _) = (
  refl,
  omega (arith, length-append {0}, length-le_bytes 4 len, length-le_bytes 4 b.blob_len, size),
)
length-payload_parts (b ∷ c ∷ blobs) len v = elim v [ ]

payload_parts-SameShape :
    (blobs blobs' : List ExpirableBlob) (len len' : ℕ)
    → IsPayload blobs len
    → IsPayload blobs' len'
    → SameShape (payload_parts blobs len) (payload_parts blobs' len')
payload_parts-SameShape [] blobs' len len' v v' = elim v [ ]
payload_parts-SameShape (b ∷ c ∷ blobs) blobs' len len' v v' = elim v [ ]
payload_parts-SameShape (b ∷ []) [] len len' v v' = elim v' [ ]
payload_parts-SameShape (b ∷ []) (b' ∷ c ∷ blobs') len len' v v' = elim v' [ ]
payload_parts-SameShape (b ∷ []) (b' ∷ []) len len' (size, _, _) (size', _, _) = (
  length-le_bytes 4 len ∙ sym (length-le_bytes 4 len'),
  (
    length-le_bytes 4 b.blob_len ∙ sym (length-le_bytes 4 b'.blob_len),
    (size ∙ sym size', (refl, tt)),
  ),
)

payload_parts-injective :
    (blobs blobs' : List ExpirableBlob) (len len' : ℕ)
    → IsPayload blobs len
    → IsPayload blobs' len'
    → payload_parts blobs len ≡ payload_parts blobs' len'
    → (blobs ≡ blobs') × (len ≡ len')
payload_parts-injective [] blobs' len len' v v' e = elim v [ ]
payload_parts-injective (b ∷ c ∷ blobs) blobs' len len' v v' e = elim v [ ]
payload_parts-injective (b ∷ []) [] len len' v v' e = elim v' [ ]
payload_parts-injective (b ∷ []) (b' ∷ c ∷ blobs') len len' v v' e = elim v' [ ]
payload_parts-injective (b ∷ []) (b' ∷ []) len len' (_, p, q) (_, p', q') e =
    let lens = le_bytes-injective 4 len len' q q' (cc e) in
    let sizes = le_bytes-injective 4 b.blob_len b'.blob_len p p' (cc e) in
    let blobs : b.blob ≡ b'.blob = cc e in
    let flags = flag_byte-injective b.deletion_criterion b'.deletion_criterion (cc e) in
    let same : b ≡ b' = cc in (cc, lens)

-- The arrays of a logic instance have their lengths.
pub record IsLogicInstance (l : ResourceLogicInstance) : Type 0 where
  pub tag_size : length l.tag ≡ 32
  pub root_size : length l.action_root ≡ 32
  pub resource : IsPayload l.app_data.resource_payload l.app_data.resource_payload_len
  pub application : IsPayload l.app_data.application_payload l.app_data.application_payload_len
  pub external : IsPayload l.app_data.external_payload l.app_data.external_payload_len
  pub discovery : IsPayload l.app_data.discovery_payload l.app_data.discovery_payload_len

length-logic_parts :
    (l : ResourceLogicInstance) → IsLogicInstance l → length (join (logic_parts l)) ≡ 1461
length-logic_parts l v =
    let (_, r) = length-payload_parts _ _ v.resource in
    let (_, a) = length-payload_parts _ _ v.application in
    let (_, x) = length-payload_parts _ _ v.external in
    let (_, d) = length-payload_parts _ _ v.discovery in
    omega (arith, length-append {0}, length-join-append, v.tag_size, v.root_size, r, a, x, d)

-- The pre-image of the digest of a well-formed logic instance (`IsLogicInstance`) is computed, and
-- it is the parts one behind the other.
pub logic_preimage_lem :
    (l : ResourceLogicInstance) → IsLogicInstance l → logic_preimage l ≡ some (join (logic_parts l))
unfolding logic_preimage
logic_preimage_lem l v = rw (write_parts_lem 1461 (logic_parts l) (length-logic_parts l v))

abbrev resource_parts : AppData → List Bytes
resource_parts d = payload_parts d.resource_payload d.resource_payload_len

abbrev application_parts : AppData → List Bytes
application_parts d = payload_parts d.application_payload d.application_payload_len

abbrev external_parts : AppData → List Bytes
external_parts d = payload_parts d.external_payload d.external_payload_len

abbrev discovery_parts : AppData → List Bytes
discovery_parts d = payload_parts d.discovery_payload d.discovery_payload_len

logic_parts-SameShape :
    (l l' : ResourceLogicInstance)
    → IsLogicInstance l
    → IsLogicInstance l'
    → SameShape (logic_parts l) (logic_parts l')
logic_parts-SameShape l l' v v' =
    let p = l.app_data in
    let q = l'.app_data in
    let r = payload_parts-SameShape _ _ _ _ v.resource v'.resource in
    let a = payload_parts-SameShape _ _ _ _ v.application v'.application in
    let x = payload_parts-SameShape _ _ _ _ v.external v'.external in
    let d = payload_parts-SameShape _ _ _ _ v.discovery v'.discovery in
    (
      v.tag_size ∙ sym v'.tag_size,
      (
        v.root_size ∙ sym v'.root_size,
        (
          refl,
          SameShape-append (resource_parts p)
              (application_parts p ++ (external_parts p ++ discovery_parts p)) (resource_parts q)
              (application_parts q ++ (external_parts q ++ discovery_parts q)) r
              (SameShape-append (application_parts p) (external_parts p ++ discovery_parts p)
                (application_parts q) (external_parts q ++ discovery_parts q) a
                (SameShape-append (external_parts p) (discovery_parts p) (external_parts q)
                  (discovery_parts q) x d)),
        ),
      ),
    )

-- Two payloads with what comes behind them.
payload_parts-append :
    (blobs blobs' : List ExpirableBlob) (len len' : ℕ) (rest rest' : List Bytes)
    → IsPayload blobs len
    → IsPayload blobs' len'
    → payload_parts blobs len ++ rest ≡ payload_parts blobs' len' ++ rest'
    → ((blobs ≡ blobs') × (len ≡ len')) × (rest ≡ rest')
payload_parts-append blobs blobs' len len' rest rest' v v' e =
    let (n, _) = length-payload_parts blobs len v in
    let (n', _) = length-payload_parts blobs' len' v' in
    let (head, tail) =
      append-injective (payload_parts blobs len) (payload_parts blobs' len') rest rest' (n ∙ sym n')
        e in
    (payload_parts-injective blobs blobs' len len' v v' head, tail)

-- Two well-formed logic instances (`IsLogicInstance`) with the same digest pre-image are equal.
pub logic_preimage-injective :
    (l l' : ResourceLogicInstance)
    → IsLogicInstance l
    → IsLogicInstance l'
    → logic_preimage l ≡ logic_preimage l'
    → l ≡ l'
logic_preimage-injective l l' v v' e =
    let bytes : join (logic_parts l) ++ [] ≡ join (logic_parts l') ++ [] =
      rw (append-nil (join (logic_parts l)), append-nil (join (logic_parts l')))
        (cc (logic_preimage_lem l v, logic_preimage_lem l' v')) in
    let parts =
      join-injective (logic_parts l) (logic_parts l') [] [] (logic_parts-SameShape l l' v v')
        bytes in
    let tags : l.tag ≡ l'.tag = cc parts in
    let roots : l.action_root ≡ l'.action_root = cc parts in
    let flags = flag_byte-injective l.is_consumed l'.is_consumed (cc parts) in
    let (r, t1) = payload_parts-append _ _ _ _ _ _ v.resource v'.resource (cc parts) in
    let (a, t2) = payload_parts-append _ _ _ _ _ _ v.application v'.application t1 in
    let (x, t3) = payload_parts-append _ _ _ _ _ _ v.external v'.external t2 in
    let d = payload_parts-injective _ _ _ _ v.discovery v'.discovery t3 in cc
