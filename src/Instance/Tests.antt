-- ===== src/Instance/Tests.antt =====
-- The digests of an instance with no payload.
use arm_noir.Prelude.{◌≡◌, refl, Bool, true, false, [], ◌∷◌, replicate, arith}
use arm_noir.Bytes.{zeros}
use arm_noir.Crypto.Samples.{two, two-FieldLaws}
use arm_noir.Instance.{
  ConsumedResourcePublic, CreatedResourcePublic, ComplianceInstance, ResourceLogicInstance,
  default_app_data,
}
use arm_noir.Instance.Digest.{IsLogicInstance, logic_preimage-injective}
use arm_noir.Instance.Compliance.{IsComplianceInstance, compliance_preimage-injective}

abbrev logic : ResourceLogicInstance
logic = record {
  tag = replicate 32 1;
  action_root = replicate 32 2;
  is_consumed = true;
  app_data = default_app_data;
}

logic-IsLogicInstance : IsLogicInstance logic
unfolding zeros
logic-IsLogicInstance = record {
  tag_size = refl;
  root_size = refl;
  resource = (refl, omega arith, omega arith);
  application = (refl, omega arith, omega arith);
  external = (refl, omega arith, omega arith);
  discovery = (refl, omega arith, omega arith);
}

logic_preimage-injective_example : logic ≡ logic
logic_preimage-injective_example =
    logic_preimage-injective logic logic logic-IsLogicInstance logic-IsLogicInstance refl

abbrev consumed : ConsumedResourcePublic
consumed = record {
  resource_nullifier = replicate 32 1;
  resource_logic_ref = replicate 32 2;
  commitment_tree_root = replicate 32 3;
}

abbrev created : CreatedResourcePublic
created = record { resource_commitment = replicate 32 4; resource_logic_ref = replicate 32 5 }

abbrev compliance : ComplianceInstance Bool
compliance = record {
  consumed_publics = consumed ∷ consumed ∷ consumed ∷ consumed ∷ [];
  consumed_count = 1;
  created_publics = created ∷ created ∷ created ∷ created ∷ [];
  created_count = 1;
  delta = record { x = true; y = false };
}

compliance-IsComplianceInstance : IsComplianceInstance compliance
compliance-IsComplianceInstance = record {
  consumed = (refl, refl, refl, (refl, refl, refl, (refl, refl, refl, (refl, refl, refl, tt))));
  four_consumed = refl;
  consumed_fits = omega arith;
  created = (refl, refl, (refl, refl, (refl, refl, (refl, refl, tt))));
  four_created = refl;
  created_fits = omega arith;
}

compliance_preimage-injective_example : compliance ≡ compliance
compliance_preimage-injective_example =
    compliance_preimage-injective two two-FieldLaws compliance compliance
      compliance-IsComplianceInstance compliance-IsComplianceInstance refl refl refl
