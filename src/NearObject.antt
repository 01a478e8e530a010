-- ===== src/NearObject.antt =====
-- lib/nearobject: NearObject.hxx and NearObject.cxx, NearObjectCapabilities.hxx. The type double
-- and its == are parameters: nothing is assumed of them, and NaN makes == irreflexive.
use near_object_framework.Common.{ℕ, Bool, true, false, not, ◌&&◌, Option, none, some, ◌==◌}

-- The comparison of two values of type double.
pub record DoubleEq (D : Type 0) : Type 0 where
  pub double_eq : D → D → Bool

-- NearObjectSpatialProperties.
pub record NearObjectSpatialProperties (D : Type 0) : Type 0 where
  pub distance : Option D
  pub angle_azimuth : Option D
  pub angle_elevation : Option D
  pub elevation : Option D

-- A near object behind a std::shared_ptr: its address and what it holds. No code changes the
-- properties of an object once it exists.
pub record NearObject (D : Type 0) : Type 0 where
  pub address : ℕ
  pub m_spatial_properties : NearObjectSpatialProperties D

-- NearObjectCapabilities.
pub record NearObjectCapabilities : Type 0 where
  pub supports_ranging : Bool
  pub supports_positioning : Bool
  pub supports_secure_device : Bool
  pub supports_secure_channels : Bool

bool_eq : Bool → Bool → Bool
bool_eq true b = b
bool_eq false b = not b

-- NearObjectCapabilities::operator==.
pub capabilities_eq : NearObjectCapabilities → NearObjectCapabilities → Bool
unfolding bool_eq
capabilities_eq a b =
    bool_eq a.supports_ranging b.supports_ranging
    && (bool_eq a.supports_positioning b.supports_positioning
        && (bool_eq a.supports_secure_device b.supports_secure_device
            && bool_eq a.supports_secure_channels b.supports_secure_channels))

-- == of two std::shared_ptr compares the addresses.
abbrev pub same_pointer : {D : Type 0} → NearObject D → NearObject D → Bool
same_pointer a b = a.address == b.address

-- NearObject::GetSpatialProperties.
pub get_spatial_properties : {D : Type 0} → NearObject D → NearObjectSpatialProperties D
get_spatial_properties o = o.m_spatial_properties

module _ {D : Type 0} ⦃e : DoubleEq D⦄ where
  -- == of two std::optional<double>.
  pub optional_eq : Option D → Option D → Bool
  optional_eq none none = true
  optional_eq none (some b) = false
  optional_eq (some a) none = false
  optional_eq (some a) (some b) = e.double_eq a b

  -- operator== of NearObjectSpatialProperties: std::tie compares the members in this order.
  unfoldable pub spatial_properties_eq :
      NearObjectSpatialProperties D → NearObjectSpatialProperties D → Bool
  unfolding optional_eq
  spatial_properties_eq a b =
      optional_eq a.distance b.distance
      && (optional_eq a.angle_azimuth b.angle_azimuth
          && (optional_eq a.angle_elevation b.angle_elevation
              && optional_eq a.elevation b.elevation))

  pub spatial_properties_ne : NearObjectSpatialProperties D → NearObjectSpatialProperties D → Bool
  spatial_properties_ne a b = not (spatial_properties_eq a b)

  -- operator== of NearObject.
  unfoldable pub near_object_eq : NearObject D → NearObject D → Bool
  unfolding spatial_properties_eq
  near_object_eq a b = spatial_properties_eq a.m_spatial_properties b.m_spatial_properties

  pub near_object_ne : NearObject D → NearObject D → Bool
  near_object_ne a b = not (near_object_eq a b)
