-- ===== src/Shared/Dtos/Movies.antt =====
-- libs/shared/src/dtos/movies: payloads and responses of the catalog service.
use Prim.Native.String.{count}
use cinema_microservices.Prelude.{◌<◌, ◌≡◌, ◌≤◌, String, ℕ, Option}
use cinema_microservices.Runtime.Value.{Number, hundredths}

-- A property that may be missing, `null` or given.
pub data Optional (A : Type 0) : Type 0 where
  absent : Optional A
  is_null : Optional A
  given : A → Optional A

-- `value ?? fallback`
abbrev pub given_or : {A : Type 0} → Optional A → A → A
given_or absent a = a
given_or is_null a = a
given_or (given b) a = b

pub record CreateMovieDto : Type 0 where
  pub title : String
  pub description : Optional String
  pub release_year : ℕ
  pub duration_minutes : ℕ
  pub ticket_price : Number

-- The decorators of `CreateMovieDto`, of which `IsOptional` lets a missing or `null` description
-- pass.
pub record IsCreateMovieDto (dto : CreateMovieDto) : Type 0 where
  pub title_given : 0 < count dto.title
  pub title_length : count dto.title ≤ 255
  pub description_length : (d : String) → dto.description ≡ given d → count d ≤ 2000
  pub year_min : 1888 ≤ dto.release_year
  pub year_max : dto.release_year ≤ 2100
  pub duration_min : 1 ≤ dto.duration_minutes
  pub duration_max : dto.duration_minutes ≤ 600
  -- At most two decimals, between 0 and 10000.
  pub cents : ℕ
  pub price : dto.ticket_price ≡ hundredths cents
  pub price_max : cents ≤ 1000000

-- `PartialType` makes every property of `CreateMovieDto` optional, so that each may be `null` too.
pub record UpdateMovieDto : Type 0 where
  pub title : Optional String
  pub description : Optional String
  pub release_year : Optional ℕ
  pub duration_minutes : Optional ℕ
  pub ticket_price : Optional Number

-- The decorators of `UpdateMovieDto`: those of `CreateMovieDto` for each property that is given.
pub record IsUpdateMovieDto (changes : UpdateMovieDto) : Type 0 where
  pub title_given : (t : String) → changes.title ≡ given t → 0 < count t
  pub title_length : (t : String) → changes.title ≡ given t → count t ≤ 255
  pub description_length : (d : String) → changes.description ≡ given d → count d ≤ 2000
  pub year_min : (y : ℕ) → changes.release_year ≡ given y → 1888 ≤ y
  pub year_max : (y : ℕ) → changes.release_year ≡ given y → y ≤ 2100
  pub duration_min : (d : ℕ) → changes.duration_minutes ≡ given d → 1 ≤ d
  pub duration_max : (d : ℕ) → changes.duration_minutes ≡ given d → d ≤ 600
  pub price :
      (p : Number)
      → changes.ticket_price ≡ given p
      → (cents : ℕ) × (p ≡ hundredths cents) × cents ≤ 1000000

pub record MovieResponse : Type 0 where
  pub id : ℕ
  pub title : String
  pub description : Option String
  pub release_year : ℕ
  pub duration_minutes : ℕ
  pub ticket_price : Number
  pub created_at : ℕ
  pub updated_at : ℕ
