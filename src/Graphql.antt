-- ===== src/Graphql.antt =====
-- pkg/graphql: the rows as the API shows them, and the resolvers over the tables behind gorm.
pub mod Nodes
pub mod Gorm
pub mod Resolvers
pub mod Subscriptions
pub mod TypedIds
pub mod Deliveries
pub mod Pages
pub mod Navigation
pub mod Registration
pub mod Downloads
