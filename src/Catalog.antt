-- ===== src/Catalog.antt =====
-- apps/catalog-service: the movie catalog.
pub mod Movie
pub mod MoviesService
pub mod MoviesController
