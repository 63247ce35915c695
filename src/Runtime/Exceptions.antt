-- ===== src/Runtime/Exceptions.antt =====
-- What can be thrown, and the exception classes of the frameworks.
--
-- `HttpException` is what the code reads of the NestJS class: `getStatus()`, `getResponse()`, `name`
-- and `message`. Its subclasses come from `@nestjs/common`, so their constructors are the fields of
-- the interface `Nest`, whose laws state the documented status and response of each.
use cinema_microservices.Prelude.{ℕ, String, ◌≡◌, refl, Option}
use cinema_microservices.Runtime.Value.{Value, Number, natural, number, string, object, field, end}

pub record HttpException : Type 0 where
  pub status : Number
  pub response : Value
  pub name : String
  pub message : String

pub data Thrown : Type 0 where
  http_exception : HttpException → Thrown
  -- `RpcException` of `@nestjs/microservices`: `getError()` and `message`.
  rpc_exception : Value → String → Thrown
  -- `QueryFailedError` of TypeORM with the `code` of its driver error.
  query_failed : Option String → Thrown
  -- `TimeoutError` of rxjs.
  timeout_error : Thrown
  -- Any other `Error`, with its `code` property where it has one.
  other_error : Option String → Thrown
  -- A thrown value that is no `Error`.
  plain : Value → Thrown

-- The response body of a built-in exception that was made from a text.
abbrev pub built_in : String → ℕ → String → Value
built_in message status error = object (
    field "message" (string message)
      (field "error" (string error) (field "statusCode" (number (natural status)) end)))

pub record Nest : Type 0 where
  pub new_http_exception : Value → Number → HttpException
  pub bad_request : String → HttpException
  pub unauthorized : String → HttpException
  -- `new UnauthorizedException()`
  pub unauthorized_default : HttpException
  pub forbidden : String → HttpException
  pub not_found : String → HttpException
  pub conflict : String → HttpException
  pub bad_gateway : String → HttpException
  pub service_unavailable : String → HttpException
  -- `new ServiceUnavailableException(object)`: the object is the response.
  pub service_unavailable_with : Value → HttpException
  pub gateway_timeout : String → HttpException
  pub new_http_exception_status : (v : Value) (n : Number) → (new_http_exception v n).status ≡ n
  pub new_http_exception_response : (v : Value) (n : Number) → (new_http_exception v n).response ≡ v
  pub bad_request_status : (m : String) → (bad_request m).status ≡ natural 400
  pub bad_request_response : (m : String) → (bad_request m).response ≡ built_in m 400 "Bad Request"
  pub unauthorized_status : (m : String) → (unauthorized m).status ≡ natural 401
  pub unauthorized_response :
      (m : String) → (unauthorized m).response ≡ built_in m 401 "Unauthorized"
  pub unauthorized_default_status : unauthorized_default.status ≡ natural 401
  pub forbidden_status : (m : String) → (forbidden m).status ≡ natural 403
  pub not_found_status : (m : String) → (not_found m).status ≡ natural 404
  pub not_found_response : (m : String) → (not_found m).response ≡ built_in m 404 "Not Found"
  pub conflict_status : (m : String) → (conflict m).status ≡ natural 409
  pub conflict_response : (m : String) → (conflict m).response ≡ built_in m 409 "Conflict"
  pub bad_gateway_status : (m : String) → (bad_gateway m).status ≡ natural 502
  pub service_unavailable_status : (m : String) → (service_unavailable m).status ≡ natural 503
  pub service_unavailable_response :
      (m : String) → (service_unavailable m).response ≡ built_in m 503 "Service Unavailable"
  pub service_unavailable_with_status :
      (v : Value) → (service_unavailable_with v).status ≡ natural 503
  pub service_unavailable_with_response : (v : Value) → (service_unavailable_with v).response ≡ v
  pub gateway_timeout_status : (m : String) → (gateway_timeout m).status ≡ natural 504

-- The documented classes, with no more in them than the laws ask for.
abbrev made_from_text : String → String → ℕ → String → HttpException
made_from_text name error status message = record {
  status = natural status;
  response = built_in message status error;
  name = name;
  message = message;
}

abbrev pub documented : Nest
documented = record {
  new_http_exception = λ v n. record {
    status = n;
    response = v;
    name = "HttpException";
    message = "Http Exception";
  };
  bad_request = made_from_text "BadRequestException" "Bad Request" 400;
  unauthorized = made_from_text "UnauthorizedException" "Unauthorized" 401;
  unauthorized_default = made_from_text "UnauthorizedException" "Unauthorized" 401 "Unauthorized";
  forbidden = made_from_text "ForbiddenException" "Forbidden" 403;
  not_found = made_from_text "NotFoundException" "Not Found" 404;
  conflict = made_from_text "ConflictException" "Conflict" 409;
  bad_gateway = made_from_text "BadGatewayException" "Bad Gateway" 502;
  service_unavailable = made_from_text "ServiceUnavailableException" "Service Unavailable" 503;
  service_unavailable_with = λ v. record {
    status = natural 503;
    response = v;
    name = "ServiceUnavailableException";
    message = "Service Unavailable Exception";
  };
  gateway_timeout = made_from_text "GatewayTimeoutException" "Gateway Timeout" 504;
  new_http_exception_status = λ v n. refl;
  new_http_exception_response = λ v n. refl;
  bad_request_status = λ m. refl;
  bad_request_response = λ m. refl;
  unauthorized_status = λ m. refl;
  unauthorized_response = λ m. refl;
  unauthorized_default_status = refl;
  forbidden_status = λ m. refl;
  not_found_status = λ m. refl;
  not_found_response = λ m. refl;
  conflict_status = λ m. refl;
  conflict_response = λ m. refl;
  bad_gateway_status = λ m. refl;
  service_unavailable_status = λ m. refl;
  service_unavailable_response = λ m. refl;
  service_unavailable_with_status = λ v. refl;
  service_unavailable_with_response = λ v. refl;
  gateway_timeout_status = λ m. refl;
}
