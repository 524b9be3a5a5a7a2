-- ===== src/Go/Errors.antt =====
-- The error values that the program makes, compares and passes on.
use cloud_provider_tencent.Base.{Bool, true, false, String}

-- An error that a client of the SDK returned: a TencentCloudSDKError or any other. The program
-- tells the two apart by a type assertion and returns either unchanged.
pub data ApiError : Type 0 where
  sdk_error : String → ApiError
  other_error : String → ApiError

-- Errors are compared by identity: `errors.New` makes a value that equals none of the named ones.
pub data Error : Type 0 where
  api : ApiError → Error
  -- ErrCloudLoadBalancerNotFound
  load_balancer_not_found : Error
  -- cloudProvider.InstanceNotFound and cloudProvider.NotImplemented
  instance_not_found : Error
  not_implemented : Error
  new : String → Error

-- err == ErrCloudLoadBalancerNotFound
unfoldable pub is_load_balancer_not_found : Error → Bool
is_load_balancer_not_found load_balancer_not_found = true
is_load_balancer_not_found _ = false

-- err == cloudProvider.InstanceNotFound
unfoldable pub is_instance_not_found : Error → Bool
is_instance_not_found instance_not_found = true
is_instance_not_found _ = false
